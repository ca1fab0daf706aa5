-- ===== src/Examples/Machine.antt =====
-- The theorems on the emulator, at an emulator of the build without devices.
use vemu.Common.{
  true, false, for_range, ◌==◌, if◌then◌else◌, pos, negsuc, ℕ, ◌+◌, ◌-◌, ◌*◌, ◌/◌, ◌^◌, ◌<◌, ◌≤◌,
  ◌≡◌, ◌≢◌, ◌≤ℤ◌, refl, none, [], ok, aborted, signed64, add64, sext8, sext16, sext32, arith,
}
use vemu.Isa.{Mode, IName, Format, ReturnException, Instruction, no_fields}
use vemu.Mmu.{Mmu, read_to, can_read_all, has_raw, read_data, read_status}
use vemu.Mmu.Access as Memory
use vemu.Mmu.Access.{load_dword, load_word}
use vemu.Mmu.RoundTrip.{IsUsable, Width}
use vemu.Bus
use vemu.Bus.{Bus}
use vemu.RegFile
use vemu.FRegFile
use vemu.Emu.State.{Emu, fields, imm, reg1, reg2}
use vemu.Emu.Csr.{load_csr}
use vemu.Emu.MulDiv.{mul, mulhu, div, rem, divu, remu}
use vemu.Emu.Jump.{beq, bne, blt, bge, bltu, bgeu, jal, jalr}
use vemu.Emu.Memory.{lb, lh, lw, ld, sd}
use vemu.Emu.Trap.{trap, mret, sret, sstatus, scause, csr_bit, is_delegated}
use vemu.Emu.Delegated.{returns_lem}
use vemu.Emu.Control.{GoesIf, next_pc, transfers_lem}
use vemu.Emu.Access.{address, written, Gives, signed_loads_lem, sd-ld}
use vemu.Emu.Arithmetic.{unsigned_lem}
use vemu.Emu.Truncated.{IsDivision}
use vemu.Emu.Division.{div-rem}
use vemu.Emu.Exchange.{Exchanges, IsReady, IsLeast, IsGreatest, exchanges_lem}
use vemu.Emu.Exchange.Words.{word_exchanges_lem}
use vemu.Emu.Atomic.{
  amoswapd, amoaddd, amoxord, amoandd, amoord, amominud, amomaxud, amomind, amomaxd, amoswapw,
  amoaddw, amoandw, amoorw, amoxorw, amominw, amomaxw, amominuw, amomaxuw,
}

abbrev pub memory : Mmu
memory = record {
  ram = λ _. 0x81;
  byte_permission = λ _. 6;
  dirty_blocks = [];
  ram_size = 16384;
  alloc_ptr = 0;
}

abbrev some_instr : Instruction
some_instr = record {
  t = Format.i;
  name = IName.addi;
  f = record no_fields { rd = 10; rs1 = 11; rs2 = 12; imm = 8 };
  str_name = "ADDI";
}

-- Register `k` holds `10 k`.
abbrev pub machine : Emu
machine = record {
  mode = Mode.user;
  bus = record { devices = none; mmu = memory };
  iregs = record { regs = λ k. 10 * k };
  fregs = FRegFile.new;
  csrs = λ _. 0;
  hex_instr = 0;
  curr_instr = some_instr;
  pc = 0x80000000;
  file_table = [];
  has_exited = false;
  exit_code = 0;
  test_flag_done = false;
  exception_flags = 0;
  opened = 0;
}

transfers_lem_example :
    (GoesIf machine (reg1 machine ≡ reg2 machine) (beq machine)
      × GoesIf machine (¬ (reg1 machine ≡ reg2 machine)) (bne machine)
      × GoesIf machine (¬ (signed64 (reg2 machine) ≤ℤ signed64 (reg1 machine))) (blt machine)
      × GoesIf machine (signed64 (reg2 machine) ≤ℤ signed64 (reg1 machine)) (bge machine)
      × GoesIf machine (reg1 machine < reg2 machine) (bltu machine)
      × GoesIf machine (reg2 machine ≤ reg1 machine) (bgeu machine))
    × (next_pc (jal machine) ≡ 0x80000008)
    × (next_pc (jalr machine) ≡ add64 (reg1 machine) (imm machine) / 2 * 2)
    × ((fields machine).rd ≢ 0
        → (RegFile.load_reg (jal machine).1.iregs 10 ≡ 0x80000004)
          × (RegFile.load_reg (jalr machine).1.iregs 10 ≡ 0x80000004))
transfers_lem_example = transfers_lem machine

signed_loads_lem_example :
    ((Bus.load machine.bus (address machine) 8
          ≡ ok ((0x81, ReturnException.normal_execution_return), machine.bus)
        → Gives (lb machine) (sext8 0x81))
      × (Bus.load machine.bus (address machine) 16
            ≡ ok ((0x81, ReturnException.normal_execution_return), machine.bus)
          → Gives (lh machine) (sext16 0x81))
      × (Bus.load machine.bus (address machine) 32
            ≡ ok ((0x81, ReturnException.normal_execution_return), machine.bus)
          → Gives (lw machine) (sext32 0x81)))
    × ((ex : ReturnException)
        → ex ≢ ReturnException.normal_execution_return
        → (Bus.load machine.bus (address machine) 8 ≡ ok ((0x81, ex), machine.bus)
            → Gives (lb machine) (sext8 100))
          × (Bus.load machine.bus (address machine) 16 ≡ ok ((0x81, ex), machine.bus)
              → Gives (lh machine) (sext16 100))
          × (Bus.load machine.bus (address machine) 32 ≡ ok ((0x81, ex), machine.bus)
              → Gives (lw machine) (sext32 100)))
unfolding RegFile.load_reg
signed_loads_lem_example = signed_loads_lem machine 0x81 machine.bus (omega arith)

abbrev memory-IsUsable : (addr : ℕ) → addr + 8 < 16384 → IsUsable memory addr 8
memory-IsUsable addr h = record {
  fits = h;
  small = omega arith;
  may_write = λ j p q. refl;
  may_read = λ j p q. refl;
}

sd-ld_example :
    (e' : Emu) × (sd machine ≡ ok (ReturnException.normal_execution_return, e'))
    × Gives (ld (record e' { curr_instr = some_instr })) (reg2 machine)
unfolding RegFile.load_reg
sd-ld_example =
    sd-ld machine some_instr refl (omega arith) (memory-IsUsable (address machine) (omega arith))
      refl (omega arith)

unsigned_lem_example :
    (reg1 machine < 2 ^ 64
      → reg2 machine < 2 ^ 64
      → reg1 machine * reg2 machine ≡ written (mulhu machine) * 2 ^ 64 + written (mul machine))
    × (reg2 machine ≢ 0
        → (reg1 machine ≡ written (divu machine) * reg2 machine + written (remu machine))
          × (written (remu machine) < reg2 machine))
    × (reg2 machine ≡ 0
        → (written (divu machine) ≡ 2 ^ 64 - 1) × (written (remu machine) ≡ reg1 machine))
unsigned_lem_example = unsigned_lem machine (omega arith)

-- Illegal instructions are delegated, and interrupts of supervisor mode are on.
abbrev delegating : Emu
delegating = record machine { csrs = λ c. if c == 0x302 then 4 else if c == sstatus then 2 else 0 }

returns_lem_example :
    (is_delegated delegating 2 ≡ false
      → (e1 : Emu) × (trap delegating ReturnException.illegal_instruction ≡ ok e1)
        × (e1.mode ≡ Mode.machine)
        × (Mode.user ≢ Mode.machine
            → (e2 : Emu) × (mret e1 ≡ ok (ReturnException.normal_execution_return, e2))
              × (e2.mode ≡ Mode.user)
              × (e2.pc ≡ 0x7ffffffc))
        × (Mode.user ≡ Mode.machine → mret e1 ≡ aborted))
    × (is_delegated delegating 2 ≡ true
        → (e1 : Emu) × (trap delegating ReturnException.illegal_instruction ≡ ok e1)
          × (e1.mode ≡ Mode.supervisor)
          × (load_csr e1.csrs scause ≡ 2)
          × (csr_bit e1.csrs sstatus 1 ≡ false)
          × ((sret e1).0 ≡ ReturnException.normal_execution_return)
          × ((sret e1).1.mode ≡ Mode.user)
          × (csr_bit (sret e1).1.csrs sstatus 1 ≡ csr_bit delegating.csrs sstatus 1)
          × ((sret e1).1.pc ≡ 0x7ffffffc))
returns_lem_example = returns_lem delegating ReturnException.illegal_instruction (omega arith)

-- It is delegated.
comes_back :
    (e1 : Emu) × (trap delegating ReturnException.illegal_instruction ≡ ok e1)
    × ((sret e1).1.mode ≡ Mode.user)
unfolding load_csr
comes_back =
    let back = (returns_lem delegating ReturnException.illegal_instruction (omega arith)).1 refl in
    (back.0, back.1, back.6)

-- -7 / 2.
abbrev dividing : Emu
dividing = record machine { iregs = record { regs = λ k. if k == 11 then 2 ^ 64 - 7 else 2 } }

div-rem_example : IsDivision (negsuc 6) (pos 2) (negsuc 2) (negsuc 0)
unfolding RegFile.load_reg RegFile.store_reg div rem
div-rem_example =
    div-rem dividing (omega arith) (omega arith) (omega arith) (omega arith) (λ h. omega arith)

abbrev exchanging : Emu
exchanging = record machine { iregs = record { regs = λ k. if k == 11 then 4096 else 5 } }

exchanging-IsReady : IsReady Width.dword exchanging 0x8181818181818181
unfolding RegFile.load_reg Bus.load Memory.load load_dword read_to can_read_all has_raw read_data
    read_status for_range
exchanging-IsReady = record {
  bare = refl;
  usable = memory-IsUsable 4096 (omega arith);
  holds = refl;
  other = omega arith;
  even = refl;
  fits = omega arith;
}

exchanges_lem_example :
    Exchanges 64 exchanging (amoswapd exchanging) 0x8181818181818181 5
    × Exchanges 64 exchanging (amoaddd exchanging) 0x8181818181818181 0x8181818181818186
    × Exchanges 64 exchanging (amoxord exchanging) 0x8181818181818181 0x8181818181818184
    × Exchanges 64 exchanging (amoandd exchanging) 0x8181818181818181 1
    × Exchanges 64 exchanging (amoord exchanging) 0x8181818181818181 0x8181818181818185
    × Exchanges 64 exchanging (amominud exchanging) 0x8181818181818181 5
    × Exchanges 64 exchanging (amomaxud exchanging) 0x8181818181818181 0x8181818181818181
    × ((new : ℕ) × IsLeast 0x8181818181818181 5 new
        × Exchanges 64 exchanging (amomind exchanging) 0x8181818181818181 new)
    × ((new : ℕ) × IsGreatest 0x8181818181818181 5 new
        × Exchanges 64 exchanging (amomaxd exchanging) 0x8181818181818181 new)
unfolding RegFile.load_reg
exchanges_lem_example = exchanges_lem exchanging 0x8181818181818181 exchanging-IsReady (omega arith)

word-IsReady : IsReady Width.word exchanging 0x81818181
unfolding RegFile.load_reg Bus.load Memory.load load_word read_to can_read_all has_raw read_data
    read_status for_range
word-IsReady = record {
  bare = refl;
  usable = record {
    fits = omega arith;
    small = omega arith;
    may_write = λ j p q. refl;
    may_read = λ j p q. refl;
  };
  holds = refl;
  other = omega arith;
  even = refl;
  fits = omega arith;
}

word_exchanges_lem_example :
    Exchanges 32 exchanging (amoswapw exchanging) 0xffffffff81818181 5
    × Exchanges 32 exchanging (amoaddw exchanging) 0xffffffff81818181 0x81818186
    × Exchanges 32 exchanging (amoxorw exchanging) 0xffffffff81818181 0x81818184
    × Exchanges 32 exchanging (amoandw exchanging) 0xffffffff81818181 1
    × Exchanges 32 exchanging (amoorw exchanging) 0xffffffff81818181 0x81818185
    × Exchanges 32 exchanging (amominuw exchanging) 0xffffffff81818181 5
    × Exchanges 32 exchanging (amomaxuw exchanging) 0xffffffff81818181 0x81818181
    × ((new : ℕ) × IsLeast 0xffffffff81818181 5 (sext32 new)
        × Exchanges 32 exchanging (amominw exchanging) 0xffffffff81818181 new)
    × ((new : ℕ) × IsGreatest 0xffffffff81818181 5 (sext32 new)
        × Exchanges 32 exchanging (amomaxw exchanging) 0xffffffff81818181 new)
unfolding RegFile.load_reg
word_exchanges_lem_example = word_exchanges_lem exchanging 0x81818181 word-IsReady
