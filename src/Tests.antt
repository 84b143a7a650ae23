-- ===== src/Tests.antt =====
-- Runs of the definitions on concrete inputs, and the theorems at concrete inputs.
pub mod Packets
pub mod Proxy
pub mod Settings
pub mod Sessions
pub mod Accounts
pub mod Commands
pub mod Courses
pub mod Options
