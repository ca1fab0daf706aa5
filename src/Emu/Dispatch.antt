-- ===== src/Emu/Dispatch.antt =====
-- The whole table of handlers that `init_func_map` of src/VEmu.cpp fills, and `ECALL` of each build.
use vemu.Common.{Option, some, Outcome, ok, true}
use vemu.Isa.{IName, ReturnException}
use vemu.Emu.Platform.{Build, Host, Platform}
use vemu.Emu.State.{Emu, Handled}
use vemu.Emu.Float.Access.{flw, fsw, fmvxw, fmvwx}
use vemu.Emu.Float.Arith.{
  fmadds, fmsubs, fnmsubs, fnmadds, fadds, fsubs, fmuls, fdivs, fsgnjs, fsgnjns, fsgnjxs,
}
use vemu.Emu.Float.Compare.{fmins, fmaxs, feqs, flts, fles, fclasss}
use vemu.Emu.Float.Convert.{fcvtws, fcvtwus, fcvtls, fcvtlus, fcvtsw, fcvtswu, fcvtsl, fcvtslu}
use vemu.Emu.Trap.{ecall}
use vemu.Emu.Syscall.Calls.{ecall_fuzz}
use vemu.Emu.Table.{inst_funcs}

-- Without what it prints.
unfoldable pub ecall_test : Emu → Handled
ecall_test e = (ReturnException.normal_execution_return, record e { test_flag_done = true })

unfoldable pub ecall_of : Build → Host → Emu → Outcome Handled
unfolding ecall ecall_test ecall_fuzz
ecall_of Build.fuzz host e = ecall_fuzz host e
ecall_of Build.test host e = ok (ecall_test e)
ecall_of Build.plain host e = ok (ecall e)

abbrev total : (Platform → Emu → Handled) → Platform → Option (Emu → Outcome Handled)
total handler p = some (λ e. ok (handler p e))

-- FSQRT.S has a handler, which the table leaves out.
unfoldable pub init_func_map : Platform → IName → Option (Emu → Outcome Handled)
unfolding inst_funcs ecall_of
init_func_map p IName.ecall = some (ecall_of p.build p.host)
init_func_map p IName.flw = some (flw p)
init_func_map p IName.fsw = some (fsw p)
init_func_map p IName.fmadds = total fmadds p
init_func_map p IName.fmsubs = total fmsubs p
init_func_map p IName.fnmsubs = total fnmsubs p
init_func_map p IName.fnmadds = total fnmadds p
init_func_map p IName.fadds = total fadds p
init_func_map p IName.fsubs = total fsubs p
init_func_map p IName.fmuls = total fmuls p
init_func_map p IName.fdivs = total fdivs p
init_func_map p IName.fsgnjs = total fsgnjs p
init_func_map p IName.fsgnjns = total fsgnjns p
init_func_map p IName.fsgnjxs = total fsgnjxs p
init_func_map p IName.fmins = total fmins p
init_func_map p IName.fmaxs = total fmaxs p
init_func_map p IName.fcvtws = some (fcvtws p)
init_func_map p IName.fcvtwus = some (fcvtwus p)
init_func_map p IName.fmvxw = total fmvxw p
init_func_map p IName.feqs = total feqs p
init_func_map p IName.flts = total flts p
init_func_map p IName.fles = total fles p
init_func_map p IName.fclasss = total fclasss p
init_func_map p IName.fcvtsw = total fcvtsw p
init_func_map p IName.fcvtswu = total fcvtswu p
init_func_map p IName.fmvwx = total fmvwx p
init_func_map p IName.fcvtls = some (fcvtls p)
init_func_map p IName.fcvtlus = some (fcvtlus p)
init_func_map p IName.fcvtsl = total fcvtsl p
init_func_map p IName.fcvtslu = total fcvtslu p
init_func_map p n = inst_funcs n
