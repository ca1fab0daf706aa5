-- ===== src/Devices/Uart.antt =====
-- The serial port of src/UART.cpp and include/UART.h. Its registers are shared with a thread that
-- reads the standard input and takes no lock: each of its accesses is a step of its own, `step`,
-- between which loads and stores of the program may come. What goes to the standard output is
-- kept in `output`, the latest character first.
use vemu.Common.{
  ℕ, ◌+◌, ◌-◌, bit_and, bit_or, Bool, false, List, [], ◌∷◌, ◌==◌, if◌then◌else◌, u8, update,
}
use vemu.Isa.{ReturnException}

abbrev pub uart_base : ℕ
uart_base = 0x10000000

abbrev pub uart_size : ℕ
uart_size = 0x100

abbrev pub uart_rhr : ℕ
uart_rhr = uart_base + 0

abbrev pub uart_thr : ℕ
uart_thr = uart_base + 0

abbrev pub uart_lsr : ℕ
uart_lsr = uart_base + 5

abbrev pub uart_lsr_rx : ℕ
uart_lsr_rx = 1

abbrev pub uart_lsr_tx : ℕ
uart_lsr_tx = 32

pub record Uart : Type 0 where
  pub uart_mem : ℕ → ℕ
  pub interrupting : Bool
  pub output : List ℕ

-- The constructor clears the registers and marks the transmitter empty. It does not set
-- `interrupting`, whose first value is an argument here.
unfoldable pub new : Bool → Uart
new first = record {
  uart_mem = update (λ _. 0) (uart_lsr - uart_base) (bit_or 0 uart_lsr_tx);
  interrupting = first;
  output = [];
}

-- The copy constructor.
unfoldable pub copy : Uart → Uart
copy u = record u { interrupting = false; output = [] }

-- Where the reading thread stands: at `std::cin`, in the loop that waits with a character, before
-- `uart_mem[UART_RHR] = c`, before the read of `uart_mem[UART_LSR] |= UART_LSR_RX`, or before its
-- write, with the value that was read. (An access to memory that another thread changes at the same
-- time has no meaning in C++; the steps are those of a machine on which each access is a single one.)
pub data Reader : Type 0 where
  reading : Reader
  waiting : ℕ → Reader
  storing : ℕ → Reader
  marking : Reader
  setting : ℕ → Reader

-- A step of the thread, where `c` is the next character of the standard input.
unfoldable pub step : ℕ → Reader → Uart → Reader × Uart
step c Reader.reading u = (Reader.waiting (u8 c), u)
step c (Reader.waiting held) u =
    if bit_and (u.uart_mem (uart_lsr - uart_base)) uart_lsr_rx == 1
    then (Reader.waiting held, u)
    else (Reader.storing held, u)
step c (Reader.storing held) u =
    (Reader.marking, record u { uart_mem = update u.uart_mem (uart_rhr - uart_base) held })
step c Reader.marking u = (Reader.setting (u.uart_mem (uart_lsr - uart_base)), u)
step c (Reader.setting lsr) u = (
  Reader.reading,
  record u { uart_mem = update u.uart_mem (uart_lsr - uart_base) (bit_or lsr uart_lsr_rx) },
)

unfoldable pub load8 : Uart → ℕ → ℕ × Uart
load8 u addr =
    let lsr = u.uart_mem (uart_lsr - uart_base) in
    let taken = update u.uart_mem (uart_lsr - uart_base) (bit_and lsr 0xfe) in
    let regs = if addr == uart_rhr then taken else u.uart_mem in
    (regs (addr - uart_base), record u { uart_mem = regs })

unfoldable pub store8 : Uart → ℕ → ℕ → Uart
store8 u addr value =
    if addr == uart_thr
    then record u { output = u8 value ∷ u.output }
    else record u { uart_mem = update u.uart_mem (addr - uart_base) (u8 (bit_and value 0xff)) }

unfoldable pub load : Uart → ℕ → ℕ → (ℕ × ReturnException) × Uart
unfolding load8
load u addr sz =
    let (v, u') = load8 u addr in
    if sz == 8
    then ((v, ReturnException.normal_execution_return), u')
    else ((0, ReturnException.load_access_fault), u)

unfoldable pub store : Uart → ℕ → ℕ → ℕ → ReturnException × Uart
unfolding store8
store u addr value sz =
    if sz == 8
    then (ReturnException.normal_execution_return, store8 u addr value)
    else (ReturnException.store_amo_access_fault, u)

-- `interrupting.exchange(false)`.
unfoldable pub is_interrupting : Uart → Bool × Uart
is_interrupting u = (u.interrupting, record u { interrupting = false })
