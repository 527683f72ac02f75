-- ===== src/Tests/Scheduler.antt =====
-- A core that runs thread 5, with threads 6 and 7 waiting.
use switch_emu_pub.Base.{
  ℕ, ◌+◌, ◌<◌, ◌≡◌, ◌⊎◌, inr, ◌==◌, true, if◌then◌else◌, [], ◌∷◌, ◌++◌, Contains, nil, ◌▸◌, refl,
  arith,
}
use switch_emu_pub.Kernel.Threads.{ThreadStatus, ThreadContext, save_state, restore_state}
use switch_emu_pub.Kernel.Scheduler.{
  Scheduler, pop_best, reschedule_no_lock, yield_thread, exit_thread, default_wakeup,
}
use switch_emu_pub.Kernel.Scheduler.Best.{BestAt, NoneUnder, pop_best-BestAt}
use switch_emu_pub.Kernel.Scheduler.Places.{
  places, LeavesPlaces, reschedule_no_lock-places, exit_thread-places,
}
use switch_emu_pub.Kernel.Scheduler.Progress.{
  Runs, IsIdle, reschedule_no_lock_starts, yield_thread_idles,
}
use switch_emu_pub.Kernel.Scheduler.Switch.{restore_state-save_state}
use switch_emu_pub.Tests.Machine.{reset}

abbrev blank : ThreadContext
blank = record {
  gp_regs = λ i. 0;
  v_regs = λ i. record { d0 = 0; d1 = 0 };
  pc = 0x2000;
  sp = 0;
  pstate = reset.core.pstate;
  tls_addr = 0;
}

-- Thread 7 comes before the others.
abbrev priorities : ℕ → ℕ
priorities handle = if handle == 7 then 10 else 20

abbrev pub busy : Scheduler
busy = record {
  current_threads = λ i. if i == 0 then 5 else 0;
  thread_lists = λ i. if i == 0 then 6 ∷ 7 ∷ [] else [];
  threads = λ handle. record {
    context = blank;
    status = ThreadStatus.running;
    affinity = 0;
    priority = priorities handle;
    waiting_threads = [];
  };
  cores = λ i. reset.core;
  active = λ i. true;
  interrupts = λ i. 0;
}

abbrev idle : Scheduler
idle = record busy { current_threads = λ i. 0 }

abbrev alone : Scheduler
alone = record busy { thread_lists = λ i. if i == 0 then 6 ∷ [] else [] }

pop_best-BestAt_example :
    (NoneUnder priorities 20 (6 ∷ 7 ∷ []) × (pop_best priorities (6 ∷ 7 ∷ []) 20 ≡ (0, 6 ∷ 7 ∷ [])))
    ⊎ ((i : ℕ) × (p : ℕ) × (b : BestAt priorities 20 (6 ∷ 7 ∷ []) i p) × (pop_best priorities
            (6 ∷ 7 ∷ [])
            20
          ≡ (b.best, b.before ++ b.after)))
pop_best-BestAt_example = pop_best-BestAt priorities 20 (6 ∷ 7 ∷ [])

default-LeavesPlaces : LeavesPlaces default_wakeup
default-LeavesPlaces = record { same_lists = λ h s. refl; same_current = λ h s. refl }

reschedule_no_lock-places_example :
    places 5 0 (reschedule_no_lock default_wakeup 0 busy) ≡ places 5 0 busy
reschedule_no_lock-places_example =
    reschedule_no_lock-places default_wakeup default-LeavesPlaces 5 0 (λ e. omega (arith, e))
      (omega arith) busy (inr (refl, omega arith))

-- Thread 6 waits for thread 5 to exit, and for nothing else.
abbrev awaited : Scheduler
awaited = record busy {
  thread_lists = λ i. [];
  threads = λ h. record (busy.threads h) { waiting_threads = if h == 5 then 6 ∷ [] else [] };
}

exit_thread-places_example : places 6 0 (exit_thread default_wakeup 0 awaited) + 0 ≡ 0
exit_thread-places_example =
    exit_thread-places default_wakeup default-LeavesPlaces 6 0 (λ e. omega (arith, e)) (omega arith)
      awaited (λ e. omega (arith, e))

reschedule_no_lock_starts_example : Runs 0 (reschedule_no_lock default_wakeup 0 idle)
reschedule_no_lock_starts_example =
    reschedule_no_lock_starts 0 idle 6 refl (Contains.here refl) (λ e. omega (arith, e))
      (omega arith)

yield_thread_idles_example : IsIdle 0 (yield_thread default_wakeup 0 alone)
yield_thread_idles_example =
    yield_thread_idles 0 alone (λ e. omega (arith, e)) (inr (omega arith) ▸ nil)

restore_state-save_state_example :
    ((i : ℕ)
      → i < 31
      → (restore_state (save_state reset.core blank) reset.core).gp_regs i ≡ reset.core.gp_regs i)
    × ((i : ℕ)
        → i < 32
        → (restore_state (save_state reset.core blank) reset.core).v_regs i ≡ reset.core.v_regs i)
    × ((restore_state (save_state reset.core blank) reset.core).pc ≡ reset.core.pc)
    × ((restore_state (save_state reset.core blank) reset.core).sp ≡ reset.core.sp)
    × ((restore_state (save_state reset.core blank) reset.core).pstate ≡ reset.core.pstate)
    × ((restore_state (save_state reset.core blank) reset.core).tls_addr ≡ reset.core.tls_addr)
restore_state-save_state_example = restore_state-save_state reset.core reset.core blank
