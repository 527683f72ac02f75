-- ===== src/Kernel/Scheduler/Places.antt =====
-- rescheduleNoLock of switch-emu/src/hle/kernel/scheduler.cpp loses and doubles no thread.
use switch_emu_pub.Base.{
  ℕ, zero, suc, ◌+◌, ◌<◌, ◌≤◌, ◌≡◌, ◌≢◌, ◌⊎◌, inl, inr, ◌==◌, test_false, test_apart, ==_iff,
  Bool-cases, Bool, true, false, if◌then◌else◌, List, [], ◌∷◌, ◌++◌, refl, sym, ap, ◌∙◌, arith,
}
use switch_emu_pub.Mem.Pages.{set_at}
use switch_emu_pub.Kernel.Threads.{ThreadStatus, invalid_thread, no_priority}
use switch_emu_pub.Kernel.Scheduler.{
  Scheduler, pop_best, choose_next, dispatch, reschedule_no_lock, exit_thread, set_status,
}
use switch_emu_pub.Kernel.Scheduler.Best.{pop_best-BestAt}
use switch_emu_pub.Kernel.Scheduler.Switch.{
  same_test, dispatch_idle_lists, dispatch_same_lists, dispatch_other_lists, dispatch_stopped_lists,
}

-- 1 where the handles are the same.
abbrev pub one_if : ℕ → ℕ → ℕ
one_if x y = if y == x then 1 else 0

abbrev pub count : ℕ → List ℕ → ℕ
count x [] = 0
count x (y ∷ ys) = one_if x y + count x ys

-- How often a handle stands in the first `n` lists.
abbrev pub queued : ℕ → (ℕ → List ℕ) → ℕ → ℕ
queued x lists zero = 0
queued x lists (suc n) = count x (lists n) + queued x lists n

-- How often a handle is the thread of a core or waits for one of the four.
abbrev pub places : ℕ → ℕ → Scheduler → ℕ
places x core_id s = one_if x (s.current_threads core_id) + queued x s.thread_lists 4

pub count-append : (x : ℕ) (xs ys : List ℕ) → count x (xs ++ ys) ≡ count x xs + count x ys
count-append x [] ys = omega arith
count-append x (y ∷ xs) ys = omega (arith, count-append x xs ys)

module _ (x : ℕ) (lists : ℕ → List ℕ) (c : ℕ) (list : List ℕ) where
  queued_after : (n : ℕ) → n ≤ c → queued x (set_at lists c list) n ≡ queued x lists n
  queued_after zero h = refl
  queued_after (suc n) h =
      rw (test_false c n (λ e. omega (arith, e, h)))
        (ap (λ (t : ℕ). count x (lists n) + t) (queued_after n (omega arith)))

  pub queued_set :
      (n : ℕ)
      → c < n
      → queued x (set_at lists c list) n + count x (lists c) ≡ queued x lists n + count x list
  queued_set zero h = omega arith
  queued_set (suc n) h = elim (Bool-cases (c == n)) [
    | inl same ↦
        let e = (==_iff c n).0 same in
        let after = queued_after n (omega (arith, e)) in
        let there : lists c ≡ lists n = ap lists e in rw (same, there) (omega (arith, after))
    | inr apart ↦
        let before = queued_set n (ground (arith, test_apart c n apart)) in
        rw apart (omega (arith, before))
  ]

popped_count :
    (priority : ℕ → ℕ) (list : List ℕ) (min x : ℕ)
    → x ≢ 0
    → count x list
      ≡ one_if x ((pop_best priority list min).0) + count x ((pop_best priority list min).1)
popped_count priority list min x valid = elim (pop_best-BestAt priority min list) [
  | inl (none_under, e) ↦ rw e (ground arith)
  | inr (i, p, b, e) ↦ rw e (
      ap (count x) b.split
      ∙ omega (arith, count-append x b.before (b.best ∷ b.after), count-append x b.before b.after))
]

-- A callback that leaves the lists and the current threads as they are.
pub record LeavesPlaces (wakeup : ℕ → Scheduler → Scheduler) : Type 0 where
  pub same_lists : (h : ℕ) (s : Scheduler) → (wakeup h s).thread_lists ≡ s.thread_lists
  pub same_current : (h : ℕ) (s : Scheduler) → (wakeup h s).current_threads ≡ s.current_threads

-- The bound that rescheduleNoLock gives to popBest, and what popBest returns.
abbrev pub bound_of : ℕ → Scheduler → ℕ
bound_of core_id s =
    let current = s.current_threads core_id in
    if current == invalid_thread then no_priority else (s.threads current).priority

abbrev pub popped_of : ℕ → Scheduler → ℕ × List ℕ
popped_of core_id s =
    pop_best (λ handle. (s.threads handle).priority) (s.thread_lists core_id) (bound_of core_id s)

module _ (wakeup : ℕ → Scheduler → Scheduler) (leaves : LeavesPlaces wakeup) (x core_id : ℕ)
    (valid : x ≢ 0) (core_lt : core_id < 4) where
  named_places :
      (next : ℕ) (s : Scheduler)
      → places x core_id (record s { current_threads = set_at s.current_threads core_id next })
        ≡ one_if x next + queued x s.thread_lists 4
  named_places next s = rw (same_test core_id) refl

  woken_places :
      (b : Bool) (next : ℕ) (s : Scheduler)
      → places x core_id (if b then s else wakeup next s) ≡ places x core_id s
  woken_places true next s = refl
  woken_places false next s = rw (leaves.same_lists next s, leaves.same_current next s) refl

  rescheduled_places :
      (s : Scheduler)
      → places x core_id (reschedule_no_lock wakeup core_id s)
        ≡ one_if x ((choose_next core_id s).0)
          + queued x
              (dispatch core_id
                ((choose_next core_id s).0)
                ((choose_next core_id s).1)).thread_lists
              4
  unfolding reschedule_no_lock
  rescheduled_places s =
      let next = (choose_next core_id s).0 in
      let switched = dispatch core_id next ((choose_next core_id s).1) in
      let named = record switched {
        current_threads = set_at switched.current_threads core_id next;
      } in
      woken_places (next == 0) next named ∙ named_places next switched

  invalid_count : (h : ℕ) → h ≡ 0 → one_if x h ≡ 0
  invalid_count h e = ground arith

  -- The list of the core without the thread that is taken.
  taken_count :
      (s : Scheduler) (min : ℕ)
      → queued x s.thread_lists 4
        ≡ one_if x
            ((pop_best (λ handle. (s.threads handle).priority) (s.thread_lists core_id) min).0)
          + queued x
              (set_at s.thread_lists core_id
                ((pop_best (λ handle. (s.threads handle).priority) (s.thread_lists core_id) min).1))
              4
  taken_count s min = omega (
    arith,
    queued_set x s.thread_lists core_id
        ((pop_best (λ handle. (s.threads handle).priority) (s.thread_lists core_id) min).1) 4
        core_lt,
    popped_count (λ handle. (s.threads handle).priority) (s.thread_lists core_id) min x valid,
  )

  idle_places :
      (s : Scheduler)
      → s.current_threads core_id ≡ 0
      → places x core_id (reschedule_no_lock wakeup core_id s) ≡ places x core_id s
  unfolding choose_next
  idle_places s idle =
      let bound = bound_of core_id s in
      let taken = (choose_next core_id s).1 in
      let next = (choose_next core_id s).0 in
      let next_popped : next ≡ (popped_of core_id s).0 = ground arith in
      rescheduled_places s
      ∙ (rw (dispatch_idle_lists core_id next taken idle, next_popped)
          (omega (arith, taken_count s bound, invalid_count (s.current_threads core_id) idle)))

  module _ (s : Scheduler) (busy : s.current_threads core_id ≢ 0)
      (runs : (s.threads (s.current_threads core_id)).status ≡ ThreadStatus.running) where
    -- No better thread waits: the current one goes on.
    kept_places :
        (popped_of core_id s).0 ≡ 0
        → places x core_id (reschedule_no_lock wakeup core_id s) ≡ places x core_id s
    unfolding choose_next
    kept_places none_better =
        let taken = (choose_next core_id s).1 in
        let next = (choose_next core_id s).0 in
        let goes_on : next ≡ s.current_threads core_id =
          rw (runs, test_false _ _ busy) (ground (arith, none_better)) in
        let nothing = invalid_count ((popped_of core_id s).0) none_better in
        rescheduled_places s
        ∙ (rw (dispatch_same_lists core_id next taken busy (sym goes_on), goes_on)
            (omega (arith, taken_count s (bound_of core_id s), nothing)))

    -- The current thread goes back to the list of its core.
    switched_places :
        (popped_of core_id s).0 ≢ 0
        → s.current_threads core_id ≢ (popped_of core_id s).0
        → (s.threads (s.current_threads core_id)).affinity < 4
        → places x core_id (reschedule_no_lock wakeup core_id s) ≡ places x core_id s
    unfolding choose_next
    switched_places some_better other home =
        let taken = (choose_next core_id s).1 in
        let next = (choose_next core_id s).0 in
        let next_popped : next ≡ (popped_of core_id s).0 = ground (arith, some_better) in
        let current = s.current_threads core_id in
        let affinity = (s.threads current).affinity in
        let lists = taken.thread_lists in
        let back = queued_set x lists affinity (lists affinity ++ (current ∷ [])) 4 home in
        let moved =
          dispatch_other_lists core_id next taken busy (λ e. other (e ∙ next_popped))
            (λ e. some_better (sym next_popped ∙ e)) runs in
        rescheduled_places s
        ∙ (rw (moved, next_popped)
            (omega (
              arith,
              taken_count s (bound_of core_id s),
              back,
              count-append x (lists affinity) (current ∷ []),
            )))

  popped_other :
      (s : Scheduler)
      → s.current_threads core_id ≢ 0
      → (popped_of core_id s).0 ≢ 0
      → s.current_threads core_id ≢ (popped_of core_id s).0
  popped_other s busy some_better =
      let priority : ℕ → ℕ = λ handle. (s.threads handle).priority in
      let bound : bound_of core_id s ≡ priority (s.current_threads core_id) =
        rw (test_false _ _ busy) refl in
      elim (pop_best-BestAt priority (bound_of core_id s) (s.thread_lists core_id)) [
        | inl (none_under, e) ↦ absurd (some_better (ap (λ (r : ℕ × List ℕ). r.0) e))
        | inr (i, p, b, e) ↦ λ same.
            let best : s.current_threads core_id ≡ b.best = same ∙ ap (λ (r : ℕ × List ℕ). r.0) e in
            let equal : priority (s.current_threads core_id) ≡ priority b.best = ap priority best in
            absurd (omega (arith, b.under, b.worth, bound, equal))
      ]

  -- On a core below four that is idle, or whose current thread is RUNNING with an affinity below
  -- four, and with a wake-up callback that leaves the lists and the current threads as they are,
  -- rescheduleNoLock keeps for each valid handle the number of times it stands as the core's
  -- current thread or in one of the four lists.
  pub reschedule_no_lock-places :
      (s : Scheduler)
      → (s.current_threads core_id ≡ 0)
        ⊎ (((s.threads (s.current_threads core_id)).status ≡ ThreadStatus.running)
            × ((s.threads (s.current_threads core_id)).affinity < 4))
      → places x core_id (reschedule_no_lock wakeup core_id s) ≡ places x core_id s
  reschedule_no_lock-places s (inl idle) = idle_places s idle
  reschedule_no_lock-places s (inr (runs, home)) =
      elim (Bool-cases (s.current_threads core_id == 0)) [
        | inl idle ↦ idle_places s ((==_iff _ _).0 idle)
        | inr busy ↦ elim (Bool-cases ((popped_of core_id s).0 == 0)) [
          | inl none_better ↦ kept_places s (test_apart _ _ busy) runs ((==_iff _ _).0 none_better)
          | inr some_better ↦
              let valid_current = test_apart _ _ busy in
              let better = test_apart _ _ some_better in
              switched_places s valid_current runs better (popped_other s valid_current better) home
        ]
      ]

  module _ (s : Scheduler) (busy : s.current_threads core_id ≢ 0)
      (stopped : (s.threads (s.current_threads core_id)).status ≡ ThreadStatus.uninitiated) where
    -- A current thread that runs no more is not chosen again.
    stopped_next : (choose_next core_id s).0 ≡ (popped_of core_id s).0
    unfolding choose_next
    stopped_next =
        rw (stopped, test_false _ _ busy)
          (elim (Bool-cases ((popped_of core_id s).0 == 0)) [
            | inl none_better ↦ ground (arith, none_better)
            | inr some_better ↦ ground (arith, some_better)
          ])

    stopped_places :
        places x core_id (reschedule_no_lock wakeup core_id s)
          + one_if x (s.current_threads core_id)
        ≡ places x core_id s
    unfolding choose_next
    stopped_places =
        let taken = (choose_next core_id s).1 in
        let next = (choose_next core_id s).0 in
        let run = rescheduled_places s in
        let dropped = dispatch_stopped_lists core_id next taken busy stopped in
        ap (λ (n : ℕ). n + one_if x (s.current_threads core_id)) run
        ∙ rw (dropped, stopped_next) (omega (arith, taken_count s (bound_of core_id s)))

  -- On a core below four with a current thread, and with a wake-up callback that leaves the lists
  -- and the current threads as they are, exitThread takes the current thread from its core and
  -- queues none: the number of times a valid handle stands as the core's current thread or in one
  -- of the four lists goes down by one for the current thread and stays for every other, also for
  -- those that wait for it.
  pub exit_thread-places :
      (s : Scheduler)
      → s.current_threads core_id ≢ 0
      → places x core_id (exit_thread wakeup core_id s) + one_if x (s.current_threads core_id)
        ≡ places x core_id s
  unfolding exit_thread
  exit_thread-places s busy =
      let current = s.current_threads core_id in
      let status : ((set_status current ThreadStatus.uninitiated s).threads current).status
          ≡ ThreadStatus.uninitiated =
        rw (same_test current) refl in
      stopped_places (set_status current ThreadStatus.uninitiated s) busy status
