-- ===== src/Decoder/Tables.antt =====
-- The constant tables of the decoder. A `std::map` over instruction names is a function into
-- `Option`; its iteration goes through `all_names`, the keys in order.
pub mod Opcodes
pub mod Functs
pub mod Functs7
pub mod Names
