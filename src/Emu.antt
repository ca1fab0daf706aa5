-- ===== src/Emu.antt =====
-- The emulator of src/VEmu.cpp and include/VEmu.h.
pub mod State
pub mod Platform
pub mod Float
pub mod Csr
pub mod Immediate
pub mod Register
pub mod MulDiv
pub mod Jump
pub mod Memory
pub mod Atomic
pub mod Trap
pub mod Syscall
pub mod Table
pub mod Dispatch
pub mod Interrupt
pub mod Priority
pub mod Run
pub mod Construct
pub mod Loaded
pub mod Frame
pub mod Shapes
pub mod Every
pub mod Whole
pub mod Arithmetic
pub mod Truncated
pub mod Division
pub mod Control
pub mod Access
pub mod Modes
pub mod Exchange
pub mod Delegated
