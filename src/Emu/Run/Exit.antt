-- ===== src/Emu/Run/Exit.antt =====
-- The end of a program in the fuzzing build of src/VEmu.cpp: ECALL with the number of `exit`.
use vemu.Common.{
  ℕ, suc, ◌-◌, ◌%◌, ◌^◌, ltb, ◌≡◌, refl, ◌∙◌, Bool, false, some, ok, arith, u8, of_ℤ, signed64,
  to_i32, pos, ◌%ℤ◌, if◌then◌else◌,
}
use vemu.Isa.{IName, ReturnException, Instruction}
use vemu.Mmu.Access.{load_insn}
use vemu.Decoder.Cache.{Decoder, type_of_opcode, fields_with, immediate_of}
use vemu.Decoder.Cache as Cached
use vemu.Decoder.Transparent.{IsCoherent, reference}
use vemu.Isa.{all_names}
use vemu.Decoder.Tables.Opcodes.{i_opcodes}
use vemu.Decoder.Tables.Functs.{i_funct3}
use vemu.Decoder.Tables.Functs7.{i_funct6, i_funct7}
use vemu.Decoder.Tables.Names.{inst_string_names}
use vemu.Decoder.Extract.{extract_opcode, extract_funct3, imm_i}
use vemu.Decoder.Search.{find_i, named}
use vemu.Emu.Platform.{Build, Platform}
use vemu.Emu.State.{Emu}
use vemu.Emu.Dispatch.{init_func_map, ecall_of}
use vemu.Emu.Syscall.Calls.{a0, a7, ecall_fuzz, exit_call, exit_emu}
use vemu.Emu.Run.{
  Progress, next_instr, interrupted, test_done, get_4byte_aligned_instr, settle, call_handler,
  execute, fetch_and_execute, round, run,
}
use vemu.Emu.Run.Cached.{reference_decode, forget, run-reference}

ecall_instr : (i : Instruction) × (reference 0x73 ≡ ok i) × (i.name ≡ IName.ecall)
unfolding reference type_of_opcode all_names i_opcodes extract_opcode find_i i_funct3 fields_with
    i_funct6 i_funct7 extract_funct3 immediate_of imm_i named inst_string_names
ecall_instr = (_, refl, refl)

-- The exit code for a status: `%` of C++ has the sign of its first operand, and the byte of a negative
-- remainder is what it lacks to 256.
abbrev pub exit_status : ℕ → ℕ
exit_status v =
    let w = v % 2 ^ 32 in if ltb w (2 ^ 31) then w % 255 else (256 - (2 ^ 32 - w) % 255) % 256

status_of : (v : ℕ) → u8 (of_ℤ (signed64 (to_i32 v) %ℤ pos 255)) ≡ exit_status v
status_of v = ground (arith)

if_false {ℓ} : {A : Type ℓ} (b : Bool) (x y : A) → b ≡ false → (if b then x else y) ≡ y
if_false b x y h = rw h refl

-- The build for fuzzing, on a platform.
abbrev pub fuzzing : Platform → Platform
fuzzing p = record p { build = Build.fuzz }

-- ECALL with 93 in a7 at the program counter.
pub record IsAtExit (e : Emu) : Type 0 where
  pub still_runs : e.has_exited ≡ false
  pub ecall_next : load_insn e.bus.mmu e.pc ≡ ok (0x73, ReturnException.normal_execution_return)
  pub wants_exit : a7 e ≡ 93

module _ (p : Platform) (e : Emu) (at_exit : IsAtExit e) where
  loaded : Instruction → Emu
  loaded i = record e { hex_instr = 0x73; curr_instr = i }

  exits :
      (i : Instruction)
      → ecall_fuzz p.host (loaded i)
        ≡ ok (ReturnException.normal_execution_return, exit_emu (loaded i) (exit_status (a0 e)))
  unfolding ecall_fuzz exit_call loaded
  exits i = rw (at_exit.wants_exit, status_of (a0 e)) refl

  fetches :
      fetch_and_execute reference_decode (fuzzing p) e tt
      ≡ ok (
          Progress.continued (next_instr (exit_emu (loaded ecall_instr.0) (exit_status (a0 e)))) tt)
  unfolding fetch_and_execute get_4byte_aligned_instr settle execute call_handler init_func_map
      ecall_of loaded
  fetches = rw (at_exit.ecall_next, ecall_instr.1, ecall_instr.2, exits ecall_instr.0) refl

  first_round :
      round reference_decode (fuzzing p) e tt
      ≡ ok (
          Progress.continued (next_instr (exit_emu (loaded ecall_instr.0) (exit_status (a0 e)))) tt)
  unfolding round interrupted test_done
  first_round = if_false e.has_exited _ _ at_exit.still_runs ∙ fetches

-- With coherent caches, a program of the fuzzing build that calls `exit` ends: two rounds of the loop
-- are enough, and `run` returns the argument modulo 255 if its low 32 bits are below 2 ^ 31; otherwise
-- they are a negative number, and `run` returns 256 less its absolute value modulo 255, modulo 256.
pub run-exit_call :
    (p : Platform) (e : Emu) (d : Decoder) (extra : ℕ)
    → IsCoherent d
    → IsAtExit e
    → (e' : Emu) × (forget (run Cached.decode (fuzzing p) (suc (suc extra)) e d)
        ≡ some (ok (exit_status (a0 e), e', tt)))
unfolding run round exit_emu
run-exit_call p e d extra coherent at_exit =
    let e' = next_instr (exit_emu (loaded p e at_exit ecall_instr.0) (exit_status (a0 e))) in
    let ends : run reference_decode (fuzzing p) (suc (suc extra)) e tt
        ≡ some (ok (exit_status (a0 e), e', tt)) =
      rw (first_round p e at_exit, run) refl in
    (e', run-reference (fuzzing p) (suc (suc extra)) e d coherent ∙ ends)
