-- ===== src/Emu/Float.antt =====
-- The floating-point instructions of src/VEmu.cpp.
pub mod Access
pub mod Arith
pub mod Compare
pub mod Convert
pub mod Laws
pub mod Flags
