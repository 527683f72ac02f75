-- ===== src/Kernel/Scheduler.antt =====
-- switch-emu/src/hle/kernel/scheduler.cpp: the threads that wait for a core, and the choice of the
-- next one. One operation runs at a time.
pub mod Best
pub mod Places
pub mod Switch
pub mod Progress
use switch_emu_pub.Base.{
  ℕ, zero, suc, ◌+◌, ltb, Bool, true, false, not, ◌&&◌, if◌then◌else◌, List, [], ◌∷◌, ◌++◌, ◌==◌,
  Option, none, some,
}
use switch_emu_pub.Cpu.State.{Core}
use switch_emu_pub.Mem.Pages.{set_at}
use switch_emu_pub.Kernel.Threads.{
  Thread, ThreadStatus, is_running, no_priority, invalid_thread, save_state, restore_state,
}

-- The variables of the scheduler, with the threads that handles name and the cores. A handle that
-- names no thread is a null pointer, which the program dereferences; `threads` is total.
pub record Scheduler : Type 0 where
  pub current_threads : ℕ → ℕ
  pub thread_lists : ℕ → List ℕ
  pub threads : ℕ → Thread
  pub cores : ℕ → Core
  pub active : ℕ → Bool
  pub interrupts : ℕ → ℕ

abbrev pub set_status : ℕ → ThreadStatus → Scheduler → Scheduler
set_status handle status s = record s {
  threads = set_at s.threads handle (record (s.threads handle) { status = status });
}

-- The loop of `popBest`: the position of the best thread so far, and its priority.
unfoldable pub best_from : (ℕ → ℕ) → List ℕ → ℕ → Option ℕ → ℕ → Option ℕ
best_from priority [] i best best_priority = best
best_from priority (handle ∷ rest) i best best_priority =
    let better = not (handle == invalid_thread) && ltb (priority handle) best_priority in
    best_from priority rest (i + 1) (if better then some i else best)
      (if better then priority handle else best_priority)

abbrev pub handle_at : List ℕ → ℕ → ℕ
handle_at [] i = invalid_thread
handle_at (handle ∷ rest) zero = handle
handle_at (handle ∷ rest) (suc i) = handle_at rest i

abbrev pub erase_at : List ℕ → ℕ → List ℕ
erase_at [] i = []
erase_at (handle ∷ rest) zero = rest
erase_at (handle ∷ rest) (suc i) = handle ∷ erase_at rest i

-- The handle at a position, and the list without it.
abbrev pub take_at : List ℕ → Option ℕ → ℕ × List ℕ
take_at list none = (invalid_thread, list)
take_at list (some i) = (handle_at list i, erase_at list i)

unfoldable pub pop_best : (ℕ → ℕ) → List ℕ → ℕ → ℕ × List ℕ
pop_best priority list min_priority = take_at list (best_from priority list 0 none min_priority)

unfoldable pub queue_thread_no_lock : ℕ → Scheduler → Scheduler
queue_thread_no_lock handle s =
    let affinity = (s.threads handle).affinity in
    set_status handle ThreadStatus.ready (record s {
      thread_lists = set_at s.thread_lists affinity (s.thread_lists affinity ++ (handle ∷ []));
    })

-- `contextSwitch` on a core: no thread is the invalid handle.
unfoldable pub context_switch : ℕ → ℕ → Scheduler → Scheduler
context_switch core_id next s =
    let current = s.current_threads core_id in
    let core = s.cores core_id in
    let old = s.threads current in
    let saved =
      if current == invalid_thread
      then s.threads
      else set_at s.threads current (record old { context = save_state core old.context }) in
    let restored =
      if next == invalid_thread then core else restore_state (saved next).context core in
    record s {
      threads = saved;
      cores = set_at s.cores core_id (record restored { exclusive_access = false });
    }

abbrev pub set_active : ℕ → Bool → Scheduler → Scheduler
set_active core_id is_active s = record s { active = set_at s.active core_id is_active }

-- A thread that still runs goes back to a list.
unfoldable pub requeue_running : ℕ → Scheduler → Scheduler
requeue_running handle s =
    if is_running (s.threads handle).status then queue_thread_no_lock handle s else s

-- The branches of `rescheduleNoLock`, by the current and the next thread.
unfoldable pub dispatch : ℕ → ℕ → Scheduler → Scheduler
dispatch core_id next s =
    let current = s.current_threads core_id in
    if not (current == invalid_thread)
    then (if not (next == invalid_thread)
        then set_active core_id true (
            if current == next
            then s
            else requeue_running current
                (set_status next ThreadStatus.running (context_switch core_id next s)))
        else set_active core_id false
            (requeue_running current (context_switch core_id invalid_thread s)))
    else (if not (next == invalid_thread)
        then set_active core_id true
            (set_status next ThreadStatus.running (context_switch core_id next s))
        else set_active core_id false s)

-- The thread that `rescheduleNoLock` chooses, taken from the list of the core.
unfoldable pub choose_next : ℕ → Scheduler → ℕ × Scheduler
choose_next core_id s =
    let current = s.current_threads core_id in
    let current_priority =
      if current == invalid_thread then no_priority else (s.threads current).priority in
    let popped =
      pop_best (λ handle. (s.threads handle).priority) (s.thread_lists core_id) current_priority in
    let taken = record s { thread_lists = set_at s.thread_lists core_id (popped.1) } in
    let keeps =
      popped.0 == invalid_thread
      && not (current == invalid_thread)
      && is_running (s.threads current).status in
    (if keeps then current else popped.0, taken)

-- `wakeup` runs the callback of a thread.
unfoldable pub reschedule_no_lock : (ℕ → Scheduler → Scheduler) → ℕ → Scheduler → Scheduler
reschedule_no_lock wakeup core_id s =
    let chosen = choose_next core_id s in
    let next = chosen.0 in
    let switched = dispatch core_id next (chosen.1) in
    let named = record switched {
      current_threads = set_at switched.current_threads core_id next;
    } in
    if next == invalid_thread then named else wakeup next named

-- `DEFAULT_WAKEUP_CALLBACK`.
abbrev pub default_wakeup : ℕ → Scheduler → Scheduler
default_wakeup handle s = s

unfoldable pub start_thread : ℕ → Scheduler → Scheduler
start_thread handle s =
    let affinity = (s.threads handle).affinity in
    let readied = set_status handle ThreadStatus.ready s in
    record readied {
      thread_lists =
          set_at readied.thread_lists affinity (readied.thread_lists affinity ++ (handle ∷ []));
    }

unfoldable pub yield_thread : (ℕ → Scheduler → Scheduler) → ℕ → Scheduler → Scheduler
yield_thread wakeup core_id s =
    reschedule_no_lock wakeup core_id (queue_thread_no_lock (s.current_threads core_id) s)

unfoldable pub exit_thread : (ℕ → Scheduler → Scheduler) → ℕ → Scheduler → Scheduler
exit_thread wakeup core_id s =
    reschedule_no_lock wakeup core_id
      (set_status (s.current_threads core_id) ThreadStatus.uninitiated s)
