-- ===== src/Lib.antt =====
-- The firmware of a pet feeder: firmware/src of the repository, in C.
--
-- The feeder keeps a schedule of daily slots and polls it against the local time; a due slot asks
-- the dispense supervisor for a feed, which runs the motor in bursts, weighs the bowl and reports
-- back to the schedule. The motor task counts pulses, recovers from jams and posts one event for
-- each session. A time zone rule gives the local time. Sensors are debounced
-- into levels and into small rings of events; messages to the broker wait in an outbox; a boot
-- control block says which of two flash banks runs, and a start that is not confirmed falls back to
-- the other one. One task takes all events from a queue, in batches. The files and what they model:
--
--   Ring                 the head and tail buffer that firmware/src/hopper_input.c, hopper_level.c,
--                        power_source_input.c, button_input.c and button_gesture.c each
--                        hold (enqueue is `push`, pop is `pop`)
--   Schedule             firmware/src/schedule.c: the slots, their order and their runtime state
--   Schedule.Store       the NVDM blob and the global flag: saving, validation, loading, start-up
--   Schedule.Edit        the commands that set, delete, toggle and skip slots and the two switches
--   Schedule.Poll        schedule_poll: missed slots, the callback for the due ones, the new day
--   Schedule.Command     firmware/src/schedule_cmd.c: the commands with their answers
--   Schedule.Complete    schedule_on_dispense_complete
--   Schedule.Next        schedule_compute_next
--   Calendar             firmware/src/epoch_calendar.c
--   Zone                 firmware/src/tz_rule.c: the rule and the offset at an instant
--   Zone.Text, Parse     the pieces of a rule's text, and tz_rule_parse_posix
--   Zone.Store           the cached rule, its storage and its label
--   TimeSync             firmware/src/time_sync.c
--   Weigh                firmware/src/weigh_cal.c
--   Dispense             firmware/src/dispense.c: the job, the baseline and the completion
--   Dispense.Settle      the end of a burst, the weighing and the next batch
--   Dispense.Start       requests and their start
--   Motor                firmware/src/motor_driver.c, and the state of motor_ctrl.c
--   Motor.Session        the end of a session, the beam and the jam detection
--   Motor.Antijam        the start of a run and the recovery from a jam
--   Motor.Task           the loop of the task, its commands and the requests
--   Hopper               firmware/src/hopper_input.c, the debounced infra-red beam
--   Hopper.Level         firmware/src/hopper_level.c, which drains Hopper and latches `empty`
--   Outbox               firmware/src/mqtt_outbox.c
--   Boot                 firmware/src/boot_bank.c
--   Boot.Jump            firmware/src/bl_dual_image.c and boot_bank_target.c: the jump of the boot
--                        loader and the calls of the firmware on the control block
--   Boot.Health          firmware/src/ota_slot_health.c
--   App                  firmware/src/app_event_port.c: the event queue and its counters
--   App.Batch            the batches of firmware/src/app.c and the turns of app_task.c
--   Feed                 firmware/src/feed_config.c
--   Bowl                 firmware/src/bowl_mass_present.c and feed_bowl.c, which asks Feed, the
--                        weight state and Dispense when Schedule fires a slot
--   Bowl.Sample          the weight state of firmware/src/app.c, of which Bowl.Sample.Rate counts
--                        the reads
--   Decimal              decimal texts, as the C library writes and reads them
--   Backoff              firmware/src/mqtt_backoff.c
--   Battery              firmware/src/battery_pct.c
--   Tare                 firmware/src/auto_tare.c and bowl_error.c
--   Power                firmware/src/power_source_input.c
--   Button               firmware/src/button_input.c, and button_gesture.c in Button.Gesture
--   Common               Boolean tests, lists over the native numbers, words, signed integers and
--                        the return codes of the ports
--   Examples             the theorems at concrete states
--
-- A function keeps its name from the source; the file-scope variables of a C file are the fields of
-- one record, which each operation takes and gives back. A uint8_t, uint16_t or uint32_t is a
-- natural number, with `u8`, `u16`, `u32` and `sub32` where the code can wrap; weights and epochs
-- are integers without a bound. A pointer that the code tests for NULL is an `Option`. The ports
-- (configuration, sensors, MQTT, flash) and the clock are arguments: what the call would answer.
-- Callbacks are functions that pass on a world of the caller's.
--
-- Fuel: the year loops of Calendar get one turn more than there are days, the month loop twelve;
-- the loop of hopper_level_poll gets as many turns as its buffer has places; the scan of Boot has
-- the fixed number of steps of the code. The year loop of Zone runs over the 130 years of the code,
-- and the search for the last weekday of a month over seven days, which hold every weekday.
--
-- One turn of the motor task, and one operation of the supervisor, gets a record of what its ports
-- answer; a C string is the list of its bytes. The kernel's queue, the flash and the store of the
-- settings are records of their calls, with the laws that are used of them.
--
-- Not modelled: logging, the formatting of JSON and text, and the drivers and tasks around these
-- parts (FreeRTOS, Wi-Fi, MQTT client, display, scale driver), which are calls of vendor code and
-- registers of chips; and so far the download of an update, the JSON of the commands, and what the
-- application does with an event beyond the components above.
pub mod App
pub mod Backoff
pub mod Battery
pub mod Boot
pub mod Bowl
pub mod Button
pub mod Calendar
pub mod Common
pub mod Decimal
pub mod Dispense
pub mod Examples
pub mod Feed
pub mod Hopper
pub mod Motor
pub mod Outbox
pub mod Power
pub mod Ring
pub mod Schedule
pub mod Tare
pub mod TimeSync
pub mod Weigh
pub mod Zone
