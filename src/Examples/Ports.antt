-- ===== src/Examples/Ports.antt =====
-- The theorems on the devices and the registers, at devices in their first state.
use vemu.Common.{◌==◌, if◌then◌else◌, ℕ, ◌≡◌, refl, false, [], ◌∷◌}
use vemu.Isa.{ReturnException}
use vemu.Devices.Clint
use vemu.Devices.Clint.{clint_mtime, clint_mtimecmp}
use vemu.Devices.Plic
use vemu.Devices.Plic.{plic_sclaim}
use vemu.Devices.Uart
use vemu.Devices.Uart.{Uart, Reader, uart_rhr}
use vemu.Devices.Laws.{
  IsClintRegister, IsPlicRegister, timers_lem, Event, after, two_steps, received, reader_lem,
}

abbrev word_size : ℕ
word_size = 32

timers_lem_example :
    (IsClintRegister clint_mtime
      → Clint.load (Clint.store Clint.new clint_mtime 5 64).1 clint_mtimecmp 64 ≡ (
          if clint_mtime == clint_mtimecmp
          then (5, ReturnException.normal_execution_return)
          else Clint.load Clint.new clint_mtimecmp 64))
    × (IsPlicRegister clint_mtime
        → Plic.load (Plic.store Plic.new clint_mtime 5 64).1 clint_mtimecmp 64 ≡ (
            if clint_mtime == clint_mtimecmp
            then (5, ReturnException.normal_execution_return)
            else Plic.load Plic.new clint_mtimecmp 64))
    × (¬ (word_size ≡ 64)
        → ((Clint.load Clint.new clint_mtime 32).1 ≡ ReturnException.load_access_fault)
          × (Clint.store Clint.new clint_mtime 5 32
              ≡ (ReturnException.store_amo_access_fault, Clint.new))
          × ((Plic.load Plic.new clint_mtime 32).1 ≡ ReturnException.load_access_fault)
          × (Plic.store Plic.new clint_mtime 5 32
              ≡ (ReturnException.store_amo_access_fault, Plic.new)))
timers_lem_example = timers_lem Clint.new Plic.new clint_mtime clint_mtimecmp 5 word_size

abbrev first : Uart
first = Uart.new false

-- The character comes twice.
comes_twice :
    let u5 =
      (after (Event.program uart_rhr ∷ two_steps) (after two_steps (Reader.waiting 65, first))).1 in
    received u5 ≡ 65
unfolding Uart.new
comes_twice = ((reader_lem first 65 []).3 refl).2
