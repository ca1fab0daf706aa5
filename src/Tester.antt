-- ===== src/Tester.antt =====
-- The test driver of src/Tester.cpp, which runs the programs of the RISC-V test suite one after the
-- other. What it prints is left out.
use Prim.Native.String.{String}
use Prim.Native.Char.{code}
use vemu.Common.{
  ℕ, ◌-◌, ◌^◌, Bool, false, Option, none, some, List, [], ◌∷◌, ◌++◌, ◌==◌, if◌then◌else◌, Outcome,
  ok, aborted, exited, undefined, ◌>>=◌,
}
use vemu.Bus.{Bus}
use vemu.Decoder.Cache as Cached
use vemu.Decoder.Cache.{Decoder}
use vemu.Emu.Platform.{Platform}
use vemu.Emu.State.{Emu}
use vemu.Emu.Construct.{of_image}
use vemu.Emu.Run as Emulator
use vemu.Fuzzing.Image.{FileInfo}
use vemu.Fuzzing.Elf.{Elf, read_elf}

pub record TestCase : Type 0 where
  pub bin_file_name : List ℕ
  pub skip : Bool

-- The bytes of an ASCII text.
abbrev codes : String → List ℕ
codes String.[] = []
codes (String.◌∷◌ c s) = code c ∷ codes s

-- `{ "../tests/elf/rv64ui-p-…" }`, a case that is not skipped.
abbrev rv64ui : String → TestCase
rv64ui name = record { bin_file_name = codes "../tests/elf/rv64ui-p-" ++ codes name; skip = false }

abbrev pub all_cases : List String → List TestCase
all_cases [] = []
all_cases (name ∷ names) = rv64ui name ∷ all_cases names

unfoldable pub test_cases : List TestCase
test_cases = all_cases (
    "add" ∷ "addi" ∷ "addiw" ∷ "addw" ∷ "and" ∷ "andi" ∷ "auipc" ∷ "beq" ∷ "bge" ∷ "bgeu" ∷ "blt"
    ∷ "bltu" ∷ "bne" ∷ "fence_i" ∷ "jal" ∷ "jalr" ∷ "lb" ∷ "lbu" ∷ "ld" ∷ "lh" ∷ "lhu" ∷ "lui"
    ∷ "lw" ∷ "lwu" ∷ "or" ∷ "ori" ∷ "sb" ∷ "sd" ∷ "sh" ∷ "sll" ∷ "slli" ∷ "slliw" ∷ "sllw" ∷ "slt"
    ∷ "slti" ∷ "sltiu" ∷ "sltu" ∷ "sra" ∷ "srai" ∷ "sraiw" ∷ "sraw" ∷ "srl" ∷ "srli" ∷ "srliw"
    ∷ "srlw" ∷ "sub" ∷ "subw" ∷ "sw" ∷ "xor" ∷ "xori" ∷ [])

-- What is left of a case is the decoder's state; what `em.run()` returns is dropped.
abbrev run_emulator : Platform → ℕ → Outcome Emu → Decoder → Option (Outcome Decoder)
unfolding Emulator.run
run_emulator p fuel (ok em) d = elim (Emulator.run Cached.decode p fuel em d) [
  | none ↦ none
  | some o ↦ some (o >>= λ (code, e, d'). ok d')
]
run_emulator p fuel aborted d = some aborted
run_emulator p fuel (exited c) d = some (exited c)
run_emulator p fuel undefined d = some undefined

-- `load` is what ELFIO finds in a file, if it can read it. `raw` and `bus` are as in Emu/Construct, with
-- a memory of 2 MiB, and the fuel is for the run of each emulator.
module _ (load : List ℕ → Option Elf) (p : Platform) (raw : Emu) (bus : Bus) (fuel : ℕ) where
  -- A file that cannot be read has the entry point `(uint64_t)~0`.
  unfoldable pub run_file : Outcome FileInfo → Decoder → Option (Outcome Decoder)
  unfolding run_emulator of_image
  run_file (ok info) d =
      if info.entry_point == 2 ^ 64 - 1
      then some (ok d)
      else run_emulator p fuel (of_image p.build raw bus info []) d
  run_file aborted d = some aborted
  run_file (exited c) d = some (exited c)
  run_file undefined d = some undefined

  unfoldable pub run_case : TestCase → Decoder → Option (Outcome Decoder)
  unfolding run_file read_elf
  run_case tcase d =
      if tcase.skip then some (ok d) else run_file (read_elf load tcase.bin_file_name false) d

  unfoldable pub run_cases : List TestCase → Decoder → Option (Outcome Decoder)
  unfolding run_case
  run_cases [] d = some (ok d)
  run_cases (tcase ∷ cases) d = elim (run_case tcase d) [
    | some (ok d') ↦ run_cases cases d'
    | other ↦ other
  ]

  unfoldable pub run : Decoder → Option (Outcome Decoder)
  unfolding run_cases test_cases
  run d = run_cases test_cases d
