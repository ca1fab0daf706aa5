-- ===== src/Fuzzing.antt =====
-- The fuzzing side of the program: src/util.cpp, include/util.h and src/FuzzThread.cpp.
pub mod Image
pub mod Random
pub mod Mutation
pub mod Restore
pub mod Corpus
pub mod Thread
pub mod Locked
pub mod Elf
pub mod Main
