-- ===== src/Emu/Syscall.antt =====
-- The system calls of the fuzzing build, `VEmu::ECALL` of src/VEmu.cpp under FUZZ_ENV.
pub mod Table
pub mod Calls
pub mod Frame
pub mod Laws
pub mod Break
