-- ===== src/Examples.antt =====
-- The theorems at concrete inputs.
mod Memory
mod Ports
mod Words
mod Machine
mod Programs
mod Calls
mod Images
