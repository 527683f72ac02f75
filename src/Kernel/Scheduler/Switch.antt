-- ===== src/Kernel/Scheduler/Switch.antt =====
-- What rescheduleNoLock does to the lists and to the core, by the thread that it switches to.
use switch_emu_pub.Base.{
  ℕ, ◌<◌, ◌≡◌, ◌≢◌, ◌==◌, test_false, test_apart, Bool-cases, inl, inr, ==_iff, true, [], ◌∷◌, ◌++◌,
  refl, sym, lt→ltb, arith,
}
use switch_emu_pub.Cpu.State.{Core}
use switch_emu_pub.Mem.Pages.{set_at}
use switch_emu_pub.Kernel.Threads.{ThreadStatus, ThreadContext, save_state, restore_state}
use switch_emu_pub.Kernel.Scheduler.{
  Scheduler, dispatch, requeue_running, queue_thread_no_lock, context_switch,
}

pub same_test : (a : ℕ) → (a == a) ≡ true
same_test a = (==_iff a a).1 refl

module _ (core_id next : ℕ) (s : Scheduler) where
  pub dispatch_idle_lists :
      s.current_threads core_id ≡ 0 → (dispatch core_id next s).thread_lists ≡ s.thread_lists
  unfolding dispatch context_switch
  dispatch_idle_lists idle = ground arith

  pub dispatch_same_lists :
      s.current_threads core_id ≢ 0
      → s.current_threads core_id ≡ next
      → (dispatch core_id next s).thread_lists ≡ s.thread_lists
  unfolding dispatch
  dispatch_same_lists valid e = ground arith

  pub dispatch_other_lists :
      s.current_threads core_id ≢ 0
      → s.current_threads core_id ≢ next
      → next ≢ 0
      → (s.threads (s.current_threads core_id)).status ≡ ThreadStatus.running
      → (dispatch core_id next s).thread_lists
        ≡ set_at s.thread_lists (s.threads (s.current_threads core_id)).affinity (
            s.thread_lists (s.threads (s.current_threads core_id)).affinity
            ++ (s.current_threads core_id ∷ []))
  unfolding dispatch requeue_running queue_thread_no_lock context_switch
  dispatch_other_lists valid other some_next runs =
      rw
        (
          test_false _ _ valid,
          test_false _ _ some_next,
          test_false _ _ other,
          test_false next (s.current_threads core_id) (λ e. other (sym e)),
          same_test (s.current_threads core_id),
          runs,
        )
        refl

module _ (core_id next : ℕ) (s : Scheduler) (valid : s.current_threads core_id ≢ 0)
    (stopped : (s.threads (s.current_threads core_id)).status ≡ ThreadStatus.uninitiated) where
  -- A current thread that runs no more goes back to no list.
  pub dispatch_stopped_lists : (dispatch core_id next s).thread_lists ≡ s.thread_lists
  unfolding dispatch requeue_running queue_thread_no_lock context_switch
  dispatch_stopped_lists = elim (Bool-cases (next == 0)) [
    | inl none_next ↦
        rw (test_false _ _ valid, none_next, same_test (s.current_threads core_id), stopped) refl
    | inr some_next ↦ elim (Bool-cases (s.current_threads core_id == next)) [
      | inl goes_on ↦ rw (test_false _ _ valid, some_next, goes_on) refl
      | inr other ↦
          rw
            (
              test_false _ _ valid,
              some_next,
              other,
              test_false next (s.current_threads core_id) (λ e. test_apart _ _ other (sym e)),
              same_test (s.current_threads core_id),
              stopped,
            )
            refl
    ]
  ]

-- Restoring what saveState saved of a core to any core gives back its general registers below 31,
-- its vector registers below 32, PC, SP, flags and TLS address, whatever the context held before.
pub restore_state-save_state :
    (core other : Core) (context : ThreadContext)
    → ((i : ℕ)
        → i < 31
        → (restore_state (save_state core context) other).gp_regs i ≡ core.gp_regs i)
      × ((i : ℕ)
          → i < 32
          → (restore_state (save_state core context) other).v_regs i ≡ core.v_regs i)
      × ((restore_state (save_state core context) other).pc ≡ core.pc)
      × ((restore_state (save_state core context) other).sp ≡ core.sp)
      × ((restore_state (save_state core context) other).pstate ≡ core.pstate)
      × ((restore_state (save_state core context) other).tls_addr ≡ core.tls_addr)
unfolding restore_state save_state
restore_state-save_state core other context =
    (λ i h. rw (lt→ltb i 31 h) refl, λ i h. rw (lt→ltb i 32 h) refl, refl, refl, refl, refl)
