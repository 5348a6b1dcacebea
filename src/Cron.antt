-- ===== src/Cron.antt =====
-- internal/controller/cron.go: five-field cron expressions, and the next time that one matches.
pub mod Field
pub mod Schedule
pub mod Parse
pub mod Ranges
pub mod Accepted
pub mod Starts
pub mod Printed
pub mod Calendar
pub mod Upcoming
mod Examples
