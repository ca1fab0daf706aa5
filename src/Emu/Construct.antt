-- ===== src/Emu/Construct.antt =====
-- The constructors of src/VEmu.cpp. `raw` is the object before it is constructed: what a constructor
-- does not set is left as it was, and `bus` is the new bus (`Bus.new`). What the host has in a file,
-- if it can be opened, is a parameter.
use vemu.Common.{
  ℕ, ◌+◌, ◌-◌, ◌*◌, ◌/◌, ◌^◌, bit_or, bit_and, List, [], ◌∷◌, ◌++◌, length, Outcome, ok, exited,
  ◌>>=◌, Option, none, some, add64, sub64, false,
}
use vemu.Isa.{Mode}
use vemu.Mmu.{set_perms, write_from, allocate, perm_write, perm_exec, perm_read}
use vemu.Mmu.Loading.{load_file}
use vemu.Fuzzing.Image.{FileInfo}
use vemu.Bus
use vemu.Bus.{Bus}
use vemu.RegFile
use vemu.FRegFile
use vemu.Emu.Platform.{Build}
use vemu.Emu.State.{Emu, FileType, FileHandle}
use vemu.Emu.Csr.{store_csr}
use vemu.Emu.Syscall.Calls.{reg, set_mmu}

abbrev pub reg_sp : ℕ
reg_sp = 2

-- The first entries of `file_table`.
abbrev pub standard_file : ℕ → FileType → FileHandle
standard_file fd type = record {
  contents = [];
  pathname = [];
  fd = fd;
  len = 0;
  idx = 0;
  type = type;
}

abbrev pub standard_files : List FileHandle
standard_files =
    standard_file 0 FileType.stdin
    ∷ standard_file 1 FileType.stdout
    ∷ standard_file 2 FileType.stderr
    ∷ []

abbrev pub misa : ℕ
misa = 0x301

-- The six bits are set one after the other.
unfoldable pub init_misa : (ℕ → ℕ) → ℕ → ℕ
init_misa csrs = store_csr csrs misa (
    bit_or (bit_or (bit_or (bit_or (bit_or (bit_or 0 (2 ^ 20)) (2 ^ 18)) (2 ^ 12)) (2 ^ 8)) (2 ^ 5))
      (2 ^ 0))

-- The first constructor, without a file name. FUZZ_ENV leaves the control registers as they are and
-- starts in machine mode.
abbrev pub first_mode : Build → Mode
first_mode Build.fuzz = Mode.machine
first_mode _ = Mode.user

abbrev pub first_csrs : Build → (ℕ → ℕ) → ℕ → ℕ
unfolding init_misa
first_csrs Build.fuzz csrs = csrs
first_csrs _ csrs = init_misa (λ _. 0)

unfoldable pub new : Build → Emu → Bus → ℕ → Emu
unfolding RegFile.new FRegFile.new first_csrs
new b raw bus start_pc = record raw {
  mode = first_mode b;
  bus = bus;
  iregs = RegFile.new;
  fregs = FRegFile.new;
  csrs = first_csrs b raw.csrs;
  pc = start_pc;
  file_table = standard_files;
  has_exited = false;
  exit_code = 0;
  test_flag_done = false;
}

-- What the store returns is dropped.
unfoldable pub push_to_stack : Emu → ℕ → ℕ → Outcome Emu
push_to_stack e value sz =
    let sp = sub64 (reg e reg_sp) (sz / 8) in
    Bus.store e.bus sp value sz >>= λ (ex, bus').
    ok (record e { bus = bus'; iregs = RegFile.store_reg e.iregs reg_sp sp })

-- The bytes of the string and a 0.
unfoldable pub write_string_to_addr : Emu → List ℕ → ℕ → Outcome Emu
write_string_to_addr e arg addr =
    write_from e.bus.mmu (arg ++ 0 ∷ []) addr >>= λ m. ok (set_mmu e m)

abbrev pub allocate_in : Emu → ℕ → Outcome (ℕ × Emu)
allocate_in e size = allocate e.bus.mmu size >>= λ (base, m). ok (base, set_mmu e m)

-- A string in 256 bytes of its own, and its address on the stack.
unfoldable pub push_arg : Emu → List ℕ → Outcome Emu
unfolding push_to_stack write_string_to_addr
push_arg e arg = do
  (argval, e1) ← allocate_in e 256
  e2 ← write_string_to_addr e1 arg argval
  push_to_stack e2 argval 64

unfoldable pub push_args : Emu → List (List ℕ) → Outcome Emu
unfolding push_arg
push_args e [] = ok e
push_args e (arg ∷ args) = push_arg e arg >>= λ e'. push_args e' args

abbrev pub reverse : List (List ℕ) → List (List ℕ) → List (List ℕ)
reverse [] done = done
reverse (x ∷ xs) done = reverse xs (x ∷ done)

-- The constructor for a loaded image with its arguments: the stack, of 1 MiB, holds three words of 0,
-- the arguments from the last to the first, the name of the file, and their number.
unfoldable pub of_image : Build → Emu → Bus → FileInfo → List (List ℕ) → Outcome Emu
unfolding new load_file push_args push_to_stack push_arg
of_image b raw bus info args = do
  let e0 = new b raw bus info.entry_point
  m ← load_file e0.bus.mmu info
  (stack_base, e1) ← allocate_in (set_mmu e0 m) (1024 * 1024)
  let top = add64 stack_base (1024 * 1024)
  e2 ← push_to_stack (record e1 { iregs = RegFile.store_reg e1.iregs reg_sp top }) 0 64
  e3 ← push_to_stack e2 0 64
  e4 ← push_to_stack e3 0 64
  e5 ← push_args e4 (reverse args [])
  e6 ← push_arg e5 info.file_name
  push_to_stack e6 (length args + 1) 64

-- `(code_size + 0xFFFF) & ~0xFFFF`.
abbrev pub aligned_size : ℕ → ℕ
aligned_size n = bit_and (add64 n 0xffff) (2 ^ 64 - 1 - 0xffff)

-- The constructor for the bytes of a program.
unfoldable pub of_bytes : Build → Emu → Bus → List ℕ → ℕ → Outcome Emu
unfolding new
of_bytes b raw bus code start_pc = do
  let e0 = new b raw bus start_pc
  (base, e1) ← allocate_in e0 (aligned_size (length code))
  m1 ← set_perms e1.bus.mmu base (length code) perm_write
  m2 ← write_from m1 code base
  m3 ← set_perms m2 base (length code) (bit_or perm_exec perm_read)
  ok (record (set_mmu e1 m3) { pc = base })

-- `read_file`, of the bytes of the file.
unfoldable pub read_file : Emu → Option (List ℕ) → Outcome Emu
read_file e none = exited 1
read_file e (some content) = do
  (base, e1) ← allocate_in e (aligned_size (length content))
  m1 ← set_perms e1.bus.mmu base (length content) perm_write
  m2 ← write_from m1 content base
  m3 ← set_perms m2 base (length content) (bit_or perm_exec perm_read)
  ok (record (set_mmu e1 m3) { pc = base })

-- The first constructor with a name.
unfoldable pub of_name : Build → Emu → Bus → (List ℕ → Option (List ℕ)) → List ℕ → ℕ → Outcome Emu
unfolding new read_file
of_name b raw bus files [] start_pc = ok (new b raw bus start_pc)
of_name b raw bus files (c ∷ cs) start_pc = read_file (new b raw bus start_pc) (files (c ∷ cs))

-- The copy constructor, which `fork` calls: the bus, with a memory of `raw` into which
-- nothing is copied, and the program counter; the rest is what a new object has.
unfoldable pub fork : Emu → Emu → Emu
unfolding Bus.copy RegFile.new FRegFile.new
fork raw other = record raw {
  bus = Bus.copy raw.bus.mmu other.bus;
  iregs = RegFile.new;
  fregs = FRegFile.new;
  pc = other.pc;
  file_table = standard_files;
  has_exited = false;
  exit_code = 0;
  test_flag_done = false;
}
