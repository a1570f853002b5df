-- ===== src/Examples.antt =====
-- Small worlds to run the program in, and its theorems at concrete inputs.
mod Service
mod Engine
mod Policies
mod Tools
mod Commands
