-- ===== src/Kernel/Waiting.antt =====
-- switch-emu/src/hle/kernel/thread.cpp and alarm.cpp: threads that wait for a thread to exit, or for
-- an alarm.
pub mod Conserve
use Prim.Native.Nat.{bit_or}
use switch_emu_pub.Base.{
  ℕ, ◌+◌, leb, ◌==◌, Bool, true, false, not, ◌&&◌, if◌then◌else◌, List, [], ◌∷◌, ◌++◌,
}
use switch_emu_pub.Bits.{u64}
use switch_emu_pub.Mem.Pages.{set_at}
use switch_emu_pub.Kernel.Threads.{Thread, ThreadStatus}
use switch_emu_pub.Kernel.Scheduler.{Scheduler, set_status, queue_thread_no_lock}

abbrev pub is_exited : ThreadStatus → Bool
is_exited ThreadStatus.uninitiated = false
is_exited ThreadStatus.initialized = false
is_exited ThreadStatus.ready = false
is_exited ThreadStatus.running = false
is_exited ThreadStatus.waiting = false
is_exited ThreadStatus.exited = true

abbrev pub generic_interrupt : ℕ
generic_interrupt = 1

-- `sendInterrupts(0, GENERIC_INTERRUPT)`.
abbrev pub interrupt_first_core : Scheduler → Scheduler
interrupt_first_core s = record s {
  interrupts = set_at s.interrupts 0 (bit_or (s.interrupts 0) generic_interrupt);
}

unfoldable pub thread_wait : ℕ → Scheduler → Scheduler
thread_wait handle s = set_status handle ThreadStatus.waiting s

-- The loop over the threads that wait.
unfoldable pub queue_all : List ℕ → Scheduler → Scheduler
queue_all [] s = s
queue_all (handle ∷ rest) s = queue_all rest (queue_thread_no_lock handle s)

abbrev pub set_waiting : ℕ → List ℕ → Scheduler → Scheduler
set_waiting handle list s = record s {
  threads = set_at s.threads handle (record (s.threads handle) { waiting_threads = list });
}

unfoldable pub thread_sync : ℕ → ℕ → Scheduler → Scheduler
thread_sync this handle s = interrupt_first_core (
    if is_exited (s.threads this).status
    then queue_thread_no_lock handle s
    else thread_wait handle
        (set_waiting this ((s.threads this).waiting_threads ++ (handle ∷ [])) s))

-- The first entry that is the handle is erased.
unfoldable pub erase_handle : ℕ → List ℕ → List ℕ
erase_handle handle [] = []
erase_handle handle (h ∷ rest) =
    let erased = erase_handle handle rest in if h == handle then rest else h ∷ erased

unfoldable pub remove_handle : ℕ → ℕ → Scheduler → Scheduler
remove_handle this handle s =
    set_waiting this (erase_handle handle (s.threads this).waiting_threads) s

pub record Alarm : Type 0 where
  pub trigger_time : ℕ
  pub has_triggered : Bool
  pub waiting_threads : List ℕ

unfoldable pub alarm_update : ℕ → Alarm → Scheduler → Alarm × Scheduler
alarm_update time alarm s =
    if leb alarm.trigger_time time && not alarm.has_triggered
    then (
      record alarm { has_triggered = true; waiting_threads = [] },
      interrupt_first_core (queue_all alarm.waiting_threads s),
    )
    else (alarm, s)

unfoldable pub alarm_wait : ℕ → Alarm → Scheduler → Alarm × Scheduler
alarm_wait handle alarm s =
    if alarm.has_triggered then (alarm, interrupt_first_core (queue_thread_no_lock handle s)) else (
      record alarm { waiting_threads = alarm.waiting_threads ++ (handle ∷ []) },
      interrupt_first_core (thread_wait handle s),
    )

-- `updateAlarms` at the time `now`.
unfoldable pub update_alarms : ℕ → List Alarm → Scheduler → List Alarm × Scheduler
update_alarms now [] s = ([], s)
update_alarms now (alarm ∷ rest) s =
    let updated = alarm_update now alarm s in
    let others = update_alarms now rest (updated.1) in (updated.0 ∷ others.0, others.1)

-- The alarms after the vector has moved them: the move constructor takes the time only, and the
-- destructor of each old alarm queues the threads that waited for it.
unfoldable pub move_alarms : List Alarm → Scheduler → List Alarm × Scheduler
move_alarms [] s = ([], s)
move_alarms (alarm ∷ rest) s =
    let others = move_alarms rest (queue_all alarm.waiting_threads s) in
    (
      record { trigger_time = alarm.trigger_time; has_triggered = false; waiting_threads = [] }
          ∷ others.0,
      others.1,
    )

-- The room for one more alarm; `reallocates` says whether the vector has none left.
abbrev pub make_room : Bool → List Alarm → Scheduler → List Alarm × Scheduler
make_room reallocates alarms s = if reallocates then move_alarms alarms s else (alarms, s)

abbrev pub new_alarm : ℕ → Alarm
new_alarm time = record { trigger_time = time; has_triggered = false; waiting_threads = [] }

unfoldable pub create_alarm : Bool → ℕ → List Alarm → Scheduler → List Alarm × Scheduler
create_alarm reallocates time alarms s =
    let moved = make_room reallocates alarms s in (moved.0 ++ (new_alarm time ∷ []), moved.1)

-- `now` is the time of the clock. The thread waits for the alarm that was created last.
unfoldable pub sleep_thread : Bool → ℕ → ℕ → ℕ → List Alarm → Scheduler → List Alarm × Scheduler
sleep_thread reallocates now nano core_id alarms s =
    let moved = make_room reallocates alarms s in
    let waited =
      alarm_wait (moved.1.current_threads core_id) (new_alarm (u64 (now + nano))) (moved.1) in
    (moved.0 ++ (waited.0 ∷ []), waited.1)
