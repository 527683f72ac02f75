-- ===== src/Tests/Waiting.antt =====
-- Thread 6 waits for an alarm.
use switch_emu_pub.Base.{◌+◌, ◌≡◌, true, false, [], ◌∷◌, arith}
use switch_emu_pub.Kernel.Scheduler.Places.{queued}
use switch_emu_pub.Kernel.Waiting.{Alarm, alarm_update, alarm_wait, create_alarm}
use switch_emu_pub.Kernel.Waiting.Conserve.{
  AtHome, alarm_places, alarms_count, alarm_update-places, alarm_wait-places, create_alarm_wakes,
}
use switch_emu_pub.Tests.Scheduler.{busy}

abbrev armed : Alarm
armed = record { trigger_time = 100; has_triggered = false; waiting_threads = 6 ∷ [] }

busy-AtHome : AtHome busy
busy-AtHome h = omega arith

alarm_update-places_example :
    alarm_places 6 (alarm_update 120 armed busy) ≡ alarm_places 6 (armed, busy)
alarm_update-places_example = alarm_update-places 6 120 armed busy busy-AtHome

alarm_wait-places_example :
    alarm_places 7 (alarm_wait 7 armed busy) ≡ alarm_places 7 (armed, busy) + 1
alarm_wait-places_example = alarm_wait-places 7 7 armed busy busy-AtHome

-- The alarm is not due, and its thread is queued.
create_alarm_wakes_example :
    (queued 6 (create_alarm true 900 (armed ∷ []) busy).1.thread_lists 4 ≡ 2)
    × (alarms_count 6 ((create_alarm true 900 (armed ∷ []) busy).0) ≡ 0)
create_alarm_wakes_example = create_alarm_wakes 6 900 (armed ∷ []) busy busy-AtHome
