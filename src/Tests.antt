-- ===== src/Tests.antt =====
-- Runs of the theorems and of the models at concrete inputs.
mod Words
mod Machine
mod Pages
mod Access
mod LoadStore
mod Scheduler
mod Waiting
mod Handles
