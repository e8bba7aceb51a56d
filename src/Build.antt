-- ===== src/Build.antt =====
-- cli-cpp-legacy/src/commands/build.cpp: the command `ebl build`.
pub mod Options
pub mod Text
pub mod Log
pub mod Console
pub mod Wizard
pub mod Resolve
pub mod Run
mod Tests
