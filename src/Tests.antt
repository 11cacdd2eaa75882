-- ===== src/Tests.antt =====
-- Runs of the definitions, and the theorems at concrete inputs.
mod Data
mod Runs
mod Request
mod App
mod Responses
mod Tools
mod Exchange
mod Served
mod UnitTest
