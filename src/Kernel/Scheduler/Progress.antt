-- ===== src/Kernel/Scheduler/Progress.antt =====
-- When a core of switch-emu/src/hle/kernel/scheduler.cpp gets a thread to run, and when it gets none.
use switch_emu_pub.Base.{
  ℕ, ◌<◌, ◌≡◌, ◌≢◌, inl, inr, ◌==◌, test_false, ==_iff, Bool-cases, true, false, if◌then◌else◌,
  List, Contains, Each-map, Each-append, refl, sym, ap, ◌∙◌, subst, arith,
}
use switch_emu_pub.Mem.Pages.{set_at}
use switch_emu_pub.Kernel.Threads.{ThreadStatus, is_running}
use switch_emu_pub.Kernel.Scheduler.{
  Scheduler, choose_next, dispatch, context_switch, queue_thread_no_lock, reschedule_no_lock,
  yield_thread, default_wakeup,
}
use switch_emu_pub.Kernel.Scheduler.Best.{NoneUnder, pop_best-NoneUnder, pop_best-Contains}
use switch_emu_pub.Kernel.Scheduler.Switch.{same_test}
use switch_emu_pub.Kernel.Scheduler.Places.{popped_of, bound_of}

-- A core that runs the thread of its handle.
pub record Runs (core_id : ℕ) (s : Scheduler) : Type 0 where
  pub named : s.current_threads core_id ≢ 0
  pub is_active : s.active core_id ≡ true
  pub status_running : (s.threads (s.current_threads core_id)).status ≡ ThreadStatus.running

-- A core that runs no thread.
pub record IsIdle (core_id : ℕ) (s : Scheduler) : Type 0 where
  pub unnamed : s.current_threads core_id ≡ 0
  pub is_inactive : s.active core_id ≡ false

module _ (core_id : ℕ) where
  woken_same : (next : ℕ) (t : Scheduler) → (if next == 0 then t else default_wakeup next t) ≡ t
  woken_same next t = elim (Bool-cases (next == 0)) [ inl e ↦ rw e refl | inr e ↦ rw e refl ]

  dispatched-Runs :
      (next : ℕ) (t : Scheduler)
      → next ≢ 0
      → t.current_threads core_id ≡ 0
      → Runs core_id (record (dispatch core_id next t) {
        current_threads = set_at (dispatch core_id next t).current_threads core_id next;
      })
  unfolding dispatch context_switch
  dispatched-Runs next t valid idle = record {
    named = λ z. valid (rw (same_test core_id) at z);
    is_active = rw (idle, test_false next 0 valid, same_test core_id) refl;
    status_running =
        rw (same_test core_id) (rw (idle, test_false next 0 valid, same_test next) refl);
  }

  dispatched-IsIdle :
      (next : ℕ) (t : Scheduler)
      → next ≡ 0
      → IsIdle core_id (record (dispatch core_id next t) {
        current_threads = set_at (dispatch core_id next t).current_threads core_id next;
      })
  unfolding dispatch
  dispatched-IsIdle next t none_next = record {
    unnamed = rw (same_test core_id) none_next;
    is_inactive = ground (arith, none_next, same_test core_id);
  }

module _ (core_id : ℕ) (s : Scheduler) where
  -- On a core with no current thread whose list has a valid handle with a priority value below
  -- 64, rescheduleNoLock with the default wake-up callback makes a valid handle current, with
  -- status RUNNING, and activates the core.
  pub reschedule_no_lock_starts :
      (x : ℕ)
      → s.current_threads core_id ≡ 0
      → Contains x (s.thread_lists core_id)
      → x ≢ 0
      → (s.threads x).priority < 64
      → Runs core_id (reschedule_no_lock default_wakeup core_id s)
  unfolding reschedule_no_lock choose_next
  reschedule_no_lock_starts x idle inside valid under =
      let better : (popped_of core_id s).0 ≢ 0 =
        pop_best-Contains (λ handle. (s.threads handle).priority) (bound_of core_id s)
          (s.thread_lists core_id) x inside valid (rw idle under) in
      let next = (choose_next core_id s).0 in
      let next_popped : next ≡ (popped_of core_id s).0 = ground arith in
      subst (Runs core_id) (sym (woken_same core_id next _)) (
        dispatched-Runs core_id next ((choose_next core_id s).1) (λ z. better (sym next_popped ∙ z))
          idle)

  same_priority :
      (h : ℕ)
      → ((queue_thread_no_lock (s.current_threads core_id) s).threads h).priority
        ≡ (s.threads h).priority
  unfolding queue_thread_no_lock
  same_priority h = elim (Bool-cases (s.current_threads core_id == h)) [
    | inl e ↦ rw e (ap (λ (i : ℕ). (s.threads i).priority) ((==_iff _ _).0 e))
    | inr e ↦ rw e refl
  ]

  same_bound :
      s.current_threads core_id ≢ 0
      → bound_of core_id (queue_thread_no_lock (s.current_threads core_id) s)
        ≡ (s.threads (s.current_threads core_id)).priority
  unfolding queue_thread_no_lock
  same_bound busy = rw (test_false _ _ busy, same_test (s.current_threads core_id)) refl

  -- After a thread was queued, the threads of the list come no more under its priority.
  queued_NoneUnder :
      s.current_threads core_id ≢ 0
      → NoneUnder
          (λ h. (s.threads h).priority)
          (s.threads (s.current_threads core_id)).priority
          (s.thread_lists core_id)
      → NoneUnder
          (λ h. (s.threads h).priority)
          (s.threads (s.current_threads core_id)).priority
          ((queue_thread_no_lock (s.current_threads core_id) s).thread_lists core_id)
  unfolding queue_thread_no_lock
  queued_NoneUnder busy none_under =
      let current = s.current_threads core_id in
      let affinity = (s.threads current).affinity in
      elim (Bool-cases (affinity == core_id)) [
        | inl e ↦
            let home : s.thread_lists core_id ≡ s.thread_lists affinity =
              ap s.thread_lists (sym ((==_iff _ _).0 e)) in
            rw e (
              Each-append (s.thread_lists affinity) current
                (subst (NoneUnder (λ h. (s.threads h).priority) (s.threads current).priority) home
                  none_under)
                (inr (omega arith)))
        | inr e ↦ rw e none_under
      ]

  none_popped :
      s.current_threads core_id ≢ 0
      → NoneUnder
          (λ h. (s.threads h).priority)
          (s.threads (s.current_threads core_id)).priority
          (s.thread_lists core_id)
      → (popped_of core_id (queue_thread_no_lock (s.current_threads core_id) s)).0 ≡ 0
  none_popped busy none_under =
      let after = queue_thread_no_lock (s.current_threads core_id) s in
      let moved : NoneUnder (λ h. (after.threads h).priority) (bound_of core_id after)
          (after.thread_lists core_id) =
        Each-map (λ h d. ground (arith, d, same_priority h, same_bound busy))
          (queued_NoneUnder busy none_under) in
      ap (λ (r : ℕ × List ℕ). r.0)
        (pop_best-NoneUnder (λ h. (after.threads h).priority) (bound_of core_id after)
          (after.thread_lists core_id) moved)

  is_ready :
      is_running
        ((queue_thread_no_lock (s.current_threads core_id) s).threads
          ((queue_thread_no_lock (s.current_threads core_id) s).current_threads core_id)).status
      ≡ false
  unfolding queue_thread_no_lock
  is_ready = rw (same_test (s.current_threads core_id)) refl

  none_chosen :
      s.current_threads core_id ≢ 0
      → NoneUnder
          (λ h. (s.threads h).priority)
          (s.threads (s.current_threads core_id)).priority
          (s.thread_lists core_id)
      → (choose_next core_id (queue_thread_no_lock (s.current_threads core_id) s)).0 ≡ 0
  unfolding choose_next
  none_chosen busy none_under = ground (arith, none_popped busy none_under, is_ready)

  -- When the current thread of a core yields and no valid handle in the core's list has a
  -- priority value strictly below its own, the core has no current thread and is not active
  -- afterwards, with the default wake-up callback.
  pub yield_thread_idles :
      s.current_threads core_id ≢ 0
      → NoneUnder
          (λ h. (s.threads h).priority)
          (s.threads (s.current_threads core_id)).priority
          (s.thread_lists core_id)
      → IsIdle core_id (yield_thread default_wakeup core_id s)
  unfolding yield_thread reschedule_no_lock
  yield_thread_idles busy none_under =
      let queued = queue_thread_no_lock (s.current_threads core_id) s in
      let chosen = choose_next core_id queued in
      subst (IsIdle core_id) (sym (woken_same core_id (chosen.0) _))
        (dispatched-IsIdle core_id (chosen.0) (chosen.1) (none_chosen busy none_under))
