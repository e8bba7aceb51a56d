-- ===== src/Json.antt =====
-- cli-cpp-legacy/src/json.hpp and json.cpp: the JSON value, its accessors, its printer and parser.
pub mod Value
pub mod Access
pub mod Keys
pub mod Dump
pub mod Parser
pub mod Integers
mod Tests
