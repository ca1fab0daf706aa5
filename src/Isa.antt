-- ===== src/Isa.antt =====
-- The enumerations and records of include/defs.h and include/Instruction.h: privilege modes, the
-- codes that a handler returns, interrupts, and decoded instructions.
pub mod Names
pub mod Order
use Prim.Native.String.{String}
use vemu.Common.{ℕ, Bool, ◌==◌}
pub use Names.*
unfoldable pub use Order.*

pub data Mode : Type 0 where
  user supervisor machine : Mode

-- The value of a mode in its `uint8_t`.
abbrev pub mode_bits : Mode → ℕ
mode_bits Mode.user = 0
mode_bits Mode.supervisor = 1
mode_bits Mode.machine = 3

pub data ReturnException : Type 0 where
  instruction_address_misaligned instruction_access_fault illegal_instruction : ReturnException
  instruction_address_breakpoint load_address_misaligned load_access_fault : ReturnException
  store_amo_address_misaligned store_amo_access_fault : ReturnException
  environment_call_from_user_mode environment_call_from_supervisor_mode : ReturnException
  environment_call_from_machine_mode : ReturnException
  instruction_page_fault load_page_fault store_amo_page_fault : ReturnException
  read_memory_with_no_permission uninitialized_memory_access : ReturnException
  normal_execution_return : ReturnException

-- `static_cast<uint8_t>` of an exception.
abbrev pub cause_code : ReturnException → ℕ
cause_code ReturnException.instruction_address_misaligned = 0
cause_code ReturnException.instruction_access_fault = 1
cause_code ReturnException.illegal_instruction = 2
cause_code ReturnException.instruction_address_breakpoint = 3
cause_code ReturnException.load_address_misaligned = 4
cause_code ReturnException.load_access_fault = 5
cause_code ReturnException.store_amo_address_misaligned = 6
cause_code ReturnException.store_amo_access_fault = 7
cause_code ReturnException.environment_call_from_user_mode = 8
cause_code ReturnException.environment_call_from_supervisor_mode = 9
cause_code ReturnException.environment_call_from_machine_mode = 11
cause_code ReturnException.instruction_page_fault = 12
cause_code ReturnException.load_page_fault = 13
cause_code ReturnException.store_amo_page_fault = 15
cause_code ReturnException.read_memory_with_no_permission = 253
cause_code ReturnException.uninitialized_memory_access = 254
cause_code ReturnException.normal_execution_return = 255

pub data Interrupt : Type 0 where
  user_software_interrupt supervisor_software_interrupt machine_software_interrupt : Interrupt
  user_timer_interrupt supervisor_timer_interrupt machine_timer_interrupt : Interrupt
  user_external_interrupt supervisor_external_interrupt machine_external_interrupt : Interrupt
  no_interrupt : Interrupt

abbrev pub interrupt_code : Interrupt → ℕ
interrupt_code Interrupt.user_software_interrupt = 0
interrupt_code Interrupt.supervisor_software_interrupt = 1
interrupt_code Interrupt.machine_software_interrupt = 3
interrupt_code Interrupt.user_timer_interrupt = 4
interrupt_code Interrupt.supervisor_timer_interrupt = 5
interrupt_code Interrupt.machine_timer_interrupt = 7
interrupt_code Interrupt.user_external_interrupt = 8
interrupt_code Interrupt.supervisor_external_interrupt = 9
interrupt_code Interrupt.machine_external_interrupt = 11
interrupt_code Interrupt.no_interrupt = 255

-- The instruction formats (`Instruction::Type`).
pub data Format : Type 0 where
  r r4 i s b u j wrong : Format

pub record Fields : Type 0 where
  pub opcode : ℕ
  pub rd : ℕ
  pub funct3 : ℕ
  pub rs1 : ℕ
  pub rs2 : ℕ
  pub funct7 : ℕ
  pub shamt32 : ℕ
  pub shamt64 : ℕ
  pub funct6 : ℕ
  pub imm : ℕ
  pub funct2 : ℕ
  pub rs3 : ℕ

-- `Fields {}`.
abbrev pub no_fields : Fields
no_fields = record {
  opcode = 0;
  rd = 0;
  funct3 = 0;
  rs1 = 0;
  rs2 = 0;
  funct7 = 0;
  shamt32 = 0;
  shamt64 = 0;
  funct6 = 0;
  imm = 0;
  funct2 = 0;
  rs3 = 0;
}

pub record Instruction : Type 0 where
  pub t : Format
  pub name : IName
  pub f : Fields
  pub str_name : String
