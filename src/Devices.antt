-- ===== src/Devices.antt =====
-- The memory-mapped devices: src/CLINT.cpp, src/PLIC.cpp and src/UART.cpp.
pub mod Clint
pub mod Plic
pub mod Uart
pub mod Laws
