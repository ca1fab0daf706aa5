-- ===== src/Lib.antt =====
-- The verification library of vemu, an emulator of the RISC-V instruction set with a fuzzing mode.
--
-- The program's parts and the files that model them (paths from the repository's root):
-- - include/defs.h, include/Instruction.h: Isa, with Isa/Names (the instruction names, in lower
--   case) and Isa/Order (their order, in which a `std::map` is gone through).
-- - src/InstructionDecoder.cpp: Decoder. Decoder/Tables holds the constant tables, Decoder/Extract
--   `extract_*` and `imm_*`, Decoder/Search the loops of `decode_*`, and Decoder/Cache the state (the
--   two caches), `instr_type`, `get_fields` and `decode`.
-- - src/MMU.cpp: Mmu. The vectors `ram` and `byte_permission` are functions on addresses; Mmu has
--   `set_perms`, `allocate`, `write_from` and `read_to`, Mmu/Access the loads and stores of each
--   width and `reset_to`, Mmu/Strings `_read_null_terminated_string`, Mmu/Loading `load_file`.
-- - src/CLINT.cpp, src/PLIC.cpp, src/UART.cpp: Devices/Clint, Devices/Plic, Devices/Uart. The thread
--   of the UART that reads the standard input is a machine of its own, `step`, whose steps are its
--   single accesses.
-- - src/Bus.cpp: Bus, which passes a load or store on to a device or to the memory.
-- - src/RegFile.cpp, src/FRegFile.cpp: RegFile, FRegFile.
-- - src/VEmu.cpp: Emu. Emu/State is the state of an emulator; each handler is a function on it, named
--   in lower case, in Emu/Immediate, Emu/Register, Emu/MulDiv, Emu/Jump, Emu/Memory, Emu/Atomic,
--   Emu/Csr and Emu/Trap, those on floats in Emu/Float, and the system calls of the fuzzing build in
--   Emu/Syscall. Emu/Table is the integer part of `init_func_map`, Emu/Dispatch the whole of it and
--   `ECALL` of each build. Emu/Interrupt has the check for interrupts and their delivery, Emu/Run the
--   loop `run`, Emu/Construct the constructors.
-- - src/util.cpp, include/util.h, src/FuzzThread.cpp: Fuzzing. Fuzzing/Random is `gen_rand`,
--   Fuzzing/Mutation `push_mutate` and `pop_mutate`, Fuzzing/Corpus the corpus with the locks of its
--   files, Fuzzing/Thread `substitute_input` and `dispatch`, Fuzzing/Elf `read_elf` and the constructor
--   of the corpus, Fuzzing/Main `main` of src/main.cpp.
-- - src/Tester.cpp: Tester.
-- How they interact: `dispatch` draws a file from the corpus, mutates the target, makes an emulator
-- from it and runs it. A round of `run` asks the bus for an interrupt, fetches a word from the memory
-- (or the bus), has the decoder decode it, and calls the handler of its name, which works on the
-- registers and, through the bus, on the devices and the memory. What is not in the repository is a
-- parameter: in Emu/Platform the macros of the build, the floating point of the host and of SoftFloat,
-- and the files that ECALL opens; in Fuzzing/Elf what ELFIO finds in a file, and the host's directories.
-- The other files of Mmu, Decoder, Devices and Emu hold theorems on these: Decoder/Encode and
-- Decoder/Listing state the formats and encodings of the ISA, Decoder/Transparent a decoder without
-- caches, Emu/Frame, Emu/Shapes, Emu/Every and Emu/Whole what all handlers have in common, Emu/Run the
-- loop as a relation and with a decoder without caches, Emu/Truncated the division of signed integers.
-- Emu/Exchange has the atomic operations, Emu/Modes and Emu/Delegated a trap with the return from it,
-- Emu/Priority the order of the interrupts.
-- Mmu/Image states what a loaded image leaves in memory. Common has what these share and Bits the
-- arithmetic of the bit operations (Bits/Masks on words); Examples applies the theorems to concrete
-- states.
--
-- How the code is read. A machine word is a number below 2 ^ w, with its wrap-around written out; a
-- signed value is its two's complement pattern, and its C++ operations go through the integers of
-- Common/Int. Signed sums, differences and products that overflow, which C++ leaves open, wrap
-- round. A call comes to an `Outcome`: a value, a failed assertion or an uncaught exception
-- (`aborted`), a call of `exit`, or an access that C++ gives no meaning (`undefined`). The
-- exceptions of the emulated machine are values, as in the source. The constructor of MMU reserves
-- its vectors without resizing them; accesses below `ram_size` are read as accesses of the reserved
-- memory. Its copy constructor finds these vectors empty and copies no byte.
--
-- Loops are recursions on the number of rounds (Common/Loop) or on the list of names, except three,
-- which run on fuel and come to `none` where it is used up. The string of Mmu/Strings ends with one
-- round for each byte of the memory and one more, since past the memory an assertion fails. `run` and
-- `get_random_free_file` need not end: what is said of them holds for every fuel, or gives the fuel
-- that is enough.
--
-- Not modelled: the vendored libraries and what is printed, with `dump_regs` and the printing of an
-- instruction. `inst_funcs` of Emu/Table has the `ecall` of the build with neither FUZZ_ENV nor
-- TEST_ENV, which Emu/Dispatch replaces.
pub mod Common
pub mod Bits
pub mod Isa
pub mod Decoder
pub mod Mmu
pub mod Devices
pub mod Bus
pub mod RegFile
pub mod FRegFile
pub mod Examples
pub mod Emu
pub mod Fuzzing
pub mod Tester
