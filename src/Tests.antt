-- ===== src/Tests.antt =====
-- Concrete runs of the models, at which the theorems' conditions hold.
mod Cache
mod Kaspa
mod Locks
mod Requests
mod Rows
mod Schedules
mod Sends
mod Submission
