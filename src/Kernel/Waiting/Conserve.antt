-- ===== src/Kernel/Waiting/Conserve.antt =====
-- A thread that waits for an alarm is queued once when the wait ends.
use switch_emu_pub.Base.{
  ℕ, ◌+◌, ◌<◌, ◌≡◌, ◌==◌, Bool-cases, true, not, ◌&&◌, leb, inl, inr, List, [], ◌∷◌, ◌++◌, refl,
  ◌∙◌, arith,
}
use switch_emu_pub.Kernel.Scheduler.{Scheduler, queue_thread_no_lock}
use switch_emu_pub.Kernel.Scheduler.Places.{one_if, count, queued, count-append, queued_set}
use switch_emu_pub.Kernel.Waiting.{
  queue_all, thread_wait, Alarm, alarm_update, alarm_wait, move_alarms, create_alarm, new_alarm,
}

-- Every thread belongs to one of the four cores.
abbrev pub AtHome : Scheduler → Type 0
AtHome s = (h : ℕ) → (s.threads h).affinity < 4

queue-AtHome : (handle : ℕ) (s : Scheduler) → AtHome s → AtHome (queue_thread_no_lock handle s)
unfolding queue_thread_no_lock
queue-AtHome handle s home h = elim (Bool-cases (handle == h)) [
  | inl e ↦ rw e (home handle)
  | inr e ↦ rw e (home h)
]

module _ (x : ℕ) where
  queued-queue_thread_no_lock :
      (handle : ℕ) (s : Scheduler)
      → AtHome s
      → queued x (queue_thread_no_lock handle s).thread_lists 4
        ≡ queued x s.thread_lists 4 + one_if x handle
  unfolding queue_thread_no_lock
  queued-queue_thread_no_lock handle s home =
      let affinity = (s.threads handle).affinity in
      let lists = s.thread_lists in
      omega (
        arith,
        queued_set x lists affinity (lists affinity ++ (handle ∷ [])) 4 (home handle),
        count-append x (lists affinity) (handle ∷ []),
      )

  queued-queue_all :
      (list : List ℕ) (s : Scheduler)
      → AtHome s
      → queued x (queue_all list s).thread_lists 4 ≡ queued x s.thread_lists 4 + count x list
  unfolding queue_all
  queued-queue_all [] s home = omega arith
  queued-queue_all (handle ∷ rest) s home =
      let next = queue_thread_no_lock handle s in
      omega (
        arith,
        queued-queue_all rest next (queue-AtHome handle s home),
        queued-queue_thread_no_lock handle s home,
      )

  -- How often the handle waits for the alarm or in a list of a core.
  abbrev pub alarm_places : Alarm × Scheduler → ℕ
  alarm_places r = count x (r.0.waiting_threads) + queued x (r.1.thread_lists) 4

  -- When every thread has an affinity below four, an update of an alarm at any time keeps for
  -- each handle the number of times it stands in the alarm's list or in one of the four lists of
  -- the cores.
  pub alarm_update-places :
      (time : ℕ) (alarm : Alarm) (s : Scheduler)
      → AtHome s
      → alarm_places (alarm_update time alarm s) ≡ alarm_places (alarm, s)
  unfolding alarm_update
  alarm_update-places time alarm s home =
      elim (Bool-cases (leb alarm.trigger_time time && not alarm.has_triggered)) [
        | inl fires ↦ rw fires (omega (arith, queued-queue_all alarm.waiting_threads s home))
        | inr rests ↦ rw rests refl
      ]

  -- When every thread has an affinity below four, waiting for an alarm adds one to the number of
  -- times the handle stands in the alarm's list or in one of the four lists of the cores, and
  -- nothing to that of any other handle.
  pub alarm_wait-places :
      (handle : ℕ) (alarm : Alarm) (s : Scheduler)
      → AtHome s
      → alarm_places (alarm_wait handle alarm s) ≡ alarm_places (alarm, s) + one_if x handle
  unfolding alarm_wait thread_wait
  alarm_wait-places handle alarm s home = elim (Bool-cases alarm.has_triggered) [
    | inl late ↦ rw late (omega (arith, queued-queue_thread_no_lock handle s home))
    | inr early ↦ rw early (omega (arith, count-append x alarm.waiting_threads (handle ∷ [])))
  ]

  -- How often the handle waits for any alarm.
  abbrev pub alarms_count : List Alarm → ℕ
  alarms_count [] = 0
  alarms_count (alarm ∷ rest) = count x alarm.waiting_threads + alarms_count rest

  alarms_count-append :
      (alarms : List Alarm) (time : ℕ)
      → alarms_count (alarms ++ (new_alarm time ∷ [])) ≡ alarms_count alarms
  alarms_count-append [] time = refl
  alarms_count-append (alarm ∷ rest) time = omega (arith, alarms_count-append rest time)

  queue_all-AtHome : (list : List ℕ) (s : Scheduler) → AtHome s → AtHome (queue_all list s)
  unfolding queue_all
  queue_all-AtHome [] s home = home
  queue_all-AtHome (handle ∷ rest) s home =
      queue_all-AtHome rest (queue_thread_no_lock handle s) (queue-AtHome handle s home)

  moved_counts :
      (alarms : List Alarm) (s : Scheduler)
      → AtHome s
      → (alarms_count ((move_alarms alarms s).0) ≡ 0)
        × (queued x ((move_alarms alarms s).1.thread_lists) 4
            ≡ queued x s.thread_lists 4 + alarms_count alarms)
  unfolding move_alarms
  moved_counts [] s home = (refl, omega arith)
  moved_counts (alarm ∷ rest) s home =
      let (emptied, all) =
        moved_counts rest (queue_all alarm.waiting_threads s)
          (queue_all-AtHome alarm.waiting_threads s home) in
      (omega (arith, emptied), omega (arith, all, queued-queue_all alarm.waiting_threads s home))

  -- When every thread has an affinity below four and the vector of alarms reallocates,
  -- createAlarm adds to the four lists of the cores each handle as often as it waited for the
  -- alarms, whatever their times, and afterwards no alarm has a waiting thread.
  pub create_alarm_wakes :
      (time : ℕ) (alarms : List Alarm) (s : Scheduler)
      → AtHome s
      → (queued x (create_alarm true time alarms s).1.thread_lists 4
          ≡ queued x s.thread_lists 4 + alarms_count alarms)
        × (alarms_count ((create_alarm true time alarms s).0) ≡ 0)
  unfolding create_alarm
  create_alarm_wakes time alarms s home =
      let (emptied, all) = moved_counts alarms s home in
      (all, none_left ((move_alarms alarms s).0) emptied)
    where
      none_left :
          (moved : List Alarm)
          → alarms_count moved ≡ 0
          → alarms_count (moved ++ (new_alarm time ∷ [])) ≡ 0
      none_left moved e = alarms_count-append moved time ∙ e
