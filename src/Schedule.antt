-- ===== src/Schedule.antt =====
-- internal/recorder/scheduler.go: the ScheduleController, which starts and stops the recorders of the
-- cameras that have a schedule.
pub mod Match
pub mod Window
pub mod Controller
