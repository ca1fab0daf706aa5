-- ===== src/Decoder.antt =====
-- The instruction decoder of src/InstructionDecoder.cpp.
pub mod Tables
pub mod Extract
pub mod Search
pub mod Cache
pub mod Fields
pub mod Encode
pub mod Transparent
pub mod Listing
