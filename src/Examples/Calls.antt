-- ===== src/Examples/Calls.antt =====
-- The theorems on the system calls and on the floating-point instructions, at a machine with an open
-- file, on a platform whose floating point is left trivial.
use vemu.Common.{
  ◌+◌, ◌-◌, ◌%◌, ◌^◌, ◌≡◌, ◌≢◌, ◌≤◌, ◌<◌, refl, true, false, none, some, [], ◌∷◌, ok, aborted,
  arith, ◌==◌, if◌then◌else◌, pos,
}
use vemu.Isa.{IName, ReturnException}
use vemu.Mmu.{Mmu}
use vemu.RegFile
use vemu.Emu.Platform.{Build, FpClass, Floats, Host, Platform}
use vemu.Emu.State.{Emu, FileType, FileHandle}
use vemu.Emu.Dispatch.{init_func_map}
use vemu.Emu.Immediate.{addi}
use vemu.Emu.Table.{inst_funcs}
use vemu.Emu.Frame.{Keeps}
use vemu.Emu.Whole.{init_func_map-Keeps}
use vemu.Emu.Float.Arith.{fadds, fmuls, fsgnjs, fsgnjns, fsgnjxs}
use vemu.Emu.Float.Compare.{fmins, fmaxs}
use vemu.Emu.Float.Access.{op1, op2}
use vemu.Emu.Float.Flags.{Computes, float_arithmetic_lem}
use vemu.Emu.Float.Laws.{with_rs2, second_operand_unused}
use vemu.Emu.Syscall.Table.{find_file}
use vemu.Emu.Syscall.Calls.{a0, a1, a2, lseek, brk, done, set_a0, set_mmu, ecall_fuzz, write}
use vemu.Emu.Syscall.Frame.{KeepsAllButA0, ecall_fuzz-KeepsAllButA0}
use vemu.Emu.Syscall.Laws.{MovesTo, lseek_lem}
use vemu.Emu.Syscall.Break.{brk_lem}
use vemu.Mmu.Fill.{IsGrown}
use vemu.Examples.Machine.{machine, memory}

-- Every number stands for itself, cut to 32 bits in a `float`.
abbrev floats : Floats
floats = record {
  to_float = λ d. d % 2 ^ 32;
  to_double = λ x. x;
  of_integer = λ z. 0;
  integer_part = λ x. some (pos x);
  fma = λ a b c. a;
  negate = λ x. x;
  copysign = λ x y. y;
  fmin = λ x y. x;
  fmax = λ x y. y;
  round = λ x. x;
  fabs = λ x. x;
  isinf = λ x. false;
  signbit = λ x. false;
  fpclassify = λ x. FpClass.normal;
  equal = λ x y. x == y;
  less = λ x y. false;
  at_most = λ x y. true;
  equal_double = λ x y. x == y;
  less_double = λ x y. false;
  f32_add = λ flags x y. (x + y, flags);
  f32_sub = λ flags x y. (x, flags);
  f32_mul = λ flags x y. (x, flags);
  f32_div = λ flags x y. (x, flags);
  f32_sqrt = λ flags x. (x, flags);
}

abbrev host : Host
host = record { open_file = λ n path flags. none; garbage = λ i. 0 }

abbrev pub platform : Platform
platform = record { build = Build.plain; support_softfloat = false; floats = floats; host = host }

-- Five bytes, of which two have been read.
abbrev five_bytes : FileHandle
five_bytes = record {
  contents = 1 ∷ 2 ∷ 3 ∷ 4 ∷ 5 ∷ [];
  pathname = [];
  fd = 3;
  len = 5;
  idx = 2;
  type = FileType.disk_file;
}

-- The registers of a call: a0 = 3, a1 = 64, a2 = 2.
abbrev calling : Emu
calling = record machine {
  iregs = record {
    regs = λ k.
        if k == 10
        then 3
        else if k == 11
        then 64
        else if k == 12
        then 2
        else if k == 17
        then 64
        else 0;
  };
  file_table = five_bytes ∷ [];
}

init_func_map-Keeps_example : Keeps machine (addi machine).1
unfolding init_func_map inst_funcs addi
init_func_map-Keeps_example =
    init_func_map-Keeps platform IName.addi (λ e. ok (addi e)) machine
      ReturnException.normal_execution_return (addi machine).1 (λ h. cc (h.0)) refl refl

ecall_fuzz-KeepsAllButA0_example : KeepsAllButA0 calling (set_a0 calling 2)
unfolding ecall_fuzz write RegFile.load_reg
ecall_fuzz-KeepsAllButA0_example =
    ecall_fuzz-KeepsAllButA0 host calling ReturnException.normal_execution_return (set_a0 calling 2)
      refl

second_operand_unused_example :
    ((fsgnjs platform (with_rs2 machine 7)).1.fregs ≡ (fsgnjs platform machine).1.fregs)
    × ((fsgnjns platform (with_rs2 machine 7)).1.fregs ≡ (fsgnjns platform machine).1.fregs)
    × ((fsgnjxs platform (with_rs2 machine 7)).1.fregs ≡ (fsgnjxs platform machine).1.fregs)
    × ((fmins platform (with_rs2 machine 7)).1.fregs ≡ (fmins platform machine).1.fregs)
    × ((fmaxs platform (with_rs2 machine 7)).1.fregs ≡ (fmaxs platform machine).1.fregs)
second_operand_unused_example = second_operand_unused platform machine 7

lseek_lem_example :
    (find_file calling.file_table (a0 calling) ≡ none
      → lseek calling ≡ done (set_a0 calling (2 ^ 64 - 1)))
    × ((h : FileHandle)
        → find_file calling.file_table (a0 calling) ≡ some h
        → (a2 calling ≡ 0 → MovesTo calling h (a1 calling))
          × (a2 calling ≡ 1 → MovesTo calling h ((h.idx + a1 calling) % 2 ^ 64))
          × (a2 calling ≡ 2 → MovesTo calling h ((h.len + a1 calling) % 2 ^ 64))
          × (2 < a2 calling → lseek calling ≡ aborted))
lseek_lem_example = lseek_lem calling

brk_lem_example :
    (a0 calling ≡ 0
      → (m' : Mmu) × IsGrown memory 0 m' × (brk calling ≡ done (set_a0 (set_mmu calling m') 0)))
    × (a0 calling ≢ 0
        → 0 ≤ a0 calling
        → a0 calling < 16384
        → (m' : Mmu) × IsGrown memory (a0 calling - 0) m'
          × (brk calling ≡ done (set_a0 (set_mmu calling m') (a0 calling))))
    × (a0 calling ≢ 0 → a0 calling < 0 → brk calling ≡ done (set_a0 calling (2 ^ 64 - 1)))
brk_lem_example = brk_lem calling (omega arith) (omega arith)

abbrev with_float : Platform
with_float = record platform { support_softfloat = true }

float_arithmetic_lem_example :
    Computes floats machine
      (floats.f32_add 0 (op1 floats machine) (op2 floats machine))
      (fadds with_float machine)
    × Computes floats machine
        (floats.f32_mul 0 (op1 floats machine) (op2 floats machine))
        (fmuls with_float machine)
float_arithmetic_lem_example = float_arithmetic_lem with_float machine refl
