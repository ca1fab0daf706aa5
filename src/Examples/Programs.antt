-- ===== src/Examples/Programs.antt =====
-- The theorems on the loop of the emulator, at a program that is one ECALL, for `exit`.
use vemu.Common.{
  false, List, [], ◌∷◌, ◌<◌, get_or, bit_or, ℕ, suc, ◌+◌, ◌≡◌, ◌==◌, if◌then◌else◌, refl, true,
  some, ok, arith,
}
use vemu.Isa.{Interrupt, Mode, IName, Format, no_fields}
use vemu.Mmu.{Mmu, perm_exec, perm_read}
use vemu.Mmu.Access.{load_insn}
use vemu.RegFile
use vemu.Bus.{Bus, DeviceSet, uart_is_interrupting}
use vemu.Devices.Clint
use vemu.Devices.Plic
use vemu.Devices.Uart
use vemu.Emu.Platform.{Build}
use vemu.Emu.Construct.{of_bytes, of_name}
use vemu.Emu.Loaded.{of_bytes_lem}
use vemu.Emu.Interrupt.{mie, mip, poll_uart, claim_uart, check_pending_interrupt}
use vemu.Emu.Priority.{Masks, Answers, check_pending_interrupt_lem}
use vemu.Decoder.Cache as Cached
use vemu.Decoder.Transparent.{new-IsCoherent}
use vemu.Emu.State.{Emu}
use vemu.Emu.Run.{run, Reaches}
use vemu.Emu.Run.Cached.{forget, reference_decode, run-reference}
use vemu.Emu.Run.Keep.{zero_reg}
use vemu.Emu.Run.Frame.{zero_reg_lem}
use vemu.Emu.Run.Exit.{fuzzing, IsAtExit, run-exit_call}
use vemu.Decoder.Cache.{Decoder}
use vemu.Examples.Machine.{machine, memory}
use vemu.Examples.Calls.{platform}

abbrev code : Mmu
code = record memory { ram = λ i. if i == 0 then 0x73 else 0 }

abbrev ending : Emu
ending = record machine {
  mode = Mode.machine;
  bus = record machine.bus { mmu = code };
  iregs = record { regs = λ k. if k == 17 then 93 else if k == 10 then 300 else 0 };
  pc = 0;
}

ending-IsAtExit : IsAtExit ending
unfolding load_insn RegFile.load_reg
ending-IsAtExit = record { still_runs = refl; ecall_next = refl; wants_exit = refl }

run-exit_call_example :
    (e' : Emu) × (forget (run Cached.decode (fuzzing platform) (suc (suc 0)) ending Cached.new)
      ≡ some (ok (45, e', tt)))
unfolding RegFile.load_reg
run-exit_call_example = run-exit_call platform ending Cached.new 0 new-IsCoherent ending-IsAtExit

run-reference_example :
    forget (run Cached.decode (fuzzing platform) 5 ending Cached.new)
    ≡ run reference_decode (fuzzing platform) 5 ending tt
run-reference_example = run-reference (fuzzing platform) 5 ending Cached.new new-IsCoherent

-- What ECALL leaves.
abbrev ended : Emu
ended = record ending {
  hex_instr = 0x73;
  curr_instr = record {
    t = Format.i;
    name = IName.ecall;
    f = record no_fields { opcode = 0x73 };
    str_name = "ECALL";
  };
  pc = 4;
  has_exited = true;
  exit_code = 45;
}

zero_reg_lem_example :
    (Reaches reference_decode (fuzzing platform) ending tt ended tt
      → zero_reg ended ≡ zero_reg ending)
    × ((fuel code : ℕ)
        → run reference_decode (fuzzing platform) fuel ending tt ≡ some (ok (code, ended, tt))
        → zero_reg ended ≡ zero_reg ending)
zero_reg_lem_example = zero_reg_lem reference_decode (fuzzing platform) ending ended tt tt

abbrev big_bus : Bus
big_bus = record machine.bus { mmu = record memory { ram_size = 1048576 } }

abbrev two_bytes : List ℕ
two_bytes = 0x73 ∷ 0 ∷ []

of_bytes_lem_example :
    (e : Emu) × (of_bytes Build.fuzz machine big_bus two_bytes 0x80000000 ≡ ok e)
    × (e.pc ≡ 0)
    × ((i : ℕ) → i < 2 → e.bus.mmu.ram (e.pc + i) ≡ get_or two_bytes i 0)
    × ((i : ℕ) → i < 2 → e.bus.mmu.byte_permission (e.pc + i) ≡ bit_or perm_exec perm_read)
    × (e.bus.mmu.alloc_ptr ≡ 65536)
    × (of_name Build.fuzz machine big_bus (λ path. some two_bytes) (0x61 ∷ []) 0x80000000 ≡ ok e)
of_bytes_lem_example =
    of_bytes_lem Build.fuzz machine big_bus two_bytes 0x80000000 0x61 [] (λ path. some two_bytes)
      refl (omega arith) (omega arith) (omega arith)

-- With devices, in user mode, and the timer of machine mode and that of supervisor mode pending.
abbrev devices : DeviceSet
devices = record { clint = Clint.new; plic = Plic.new; uart = Uart.new false }

abbrev waiting : Emu
waiting = record machine {
  bus = record machine.bus { devices = some devices };
  csrs = λ c. if c == mie then 0xa0 else if c == mip then 0xa0 else 0;
}

check_pending_interrupt_lem_example :
    (Masks waiting → check_pending_interrupt waiting ≡ ok (Interrupt.no_interrupt, waiting))
    × ((¬ Masks waiting)
        → (r : Interrupt × Emu) × (check_pending_interrupt waiting ≡ ok r) × Answers waiting r)
unfolding poll_uart claim_uart uart_is_interrupting Uart.is_interrupting Uart.new
check_pending_interrupt_lem_example = check_pending_interrupt_lem waiting waiting refl
