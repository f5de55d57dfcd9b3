-- ===== src/Tests.antt =====
-- Runs on concrete inputs, and instances of the theorems whose statements have hypotheses.
mod Net
mod Log
mod Routes
mod Switch
mod Rules
mod Files
mod Hooks
mod Wire
mod Devices
mod Start
mod Services
mod Client
mod Daemon
mod Pages
mod Whole
