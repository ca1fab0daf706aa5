-- ===== src/Emu/Whole.antt =====
-- Every instruction of src/VEmu.cpp, in every build, leaves the registers other than `rd` alone.
use vemu.Common.{
  ℕ, ◌≡◌, ◌≢◌, refl, Bool, true, false, none, some, Outcome, ok, aborted, exited, undefined, ◌>>=◌,
  if◌then◌else◌, u32,
}
use mathlib.Core.Path.{subst}
use vemu.Isa.{IName, ReturnException}
use vemu.Emu.Platform.{Build, Host, Platform}
use vemu.Emu.State.{Emu, Handled, result}
use vemu.Emu.Float.Access.{
  flw, fsw, fmvxw, fmvwx, float_address, float_result, update_float_flags, reset_float_flags,
}
use vemu.Emu.Float.Arith.{
  fmadds, fmsubs, fnmsubs, fnmadds, fadds, fsubs, fmuls, fdivs, fsgnjs, fsgnjns, fsgnjxs,
}
use vemu.Emu.Float.Compare.{fmins, fmaxs, feqs, flts, fles, fclasss}
use vemu.Emu.Float.Convert.{fcvtws, fcvtwus, fcvtls, fcvtlus, fcvtsw, fcvtswu, fcvtsl, fcvtslu}
use vemu.Emu.Trap.{ecall}
use vemu.Emu.Table.{inst_funcs}
use vemu.Emu.Dispatch.{ecall_test, ecall_of, init_func_map}
use vemu.Emu.Frame.{
  Keeps, AllKeep, Keeps-refl, Keeps-rest, AllKeep-load, AllKeep-store, AllKeep-result,
}
use vemu.Emu.Every.{Runs, handled}
use vemu.Emu.Shapes.{called}

-- A handler that the build may have left out.
supported_Keeps :
    (e : Emu) (b : Bool) (ex : ReturnException) (e' : Emu)
    → Keeps e e'
    → AllKeep e (ok (if b then (ex, e') else (ReturnException.illegal_instruction, e)))
supported_Keeps e true ex e' h = h
supported_Keeps e false ex e' h = Keeps-refl e

supported_AllKeep :
    (e : Emu) (b : Bool) (o : Outcome Handled)
    → AllKeep e o
    → AllKeep e (if b then o else ok (ReturnException.illegal_instruction, e))
supported_AllKeep e true o h = h
supported_AllKeep e false o h = Keeps-refl e

converted :
    (e : Emu) (b : Bool) (o : Outcome ℕ)
    → AllKeep e
        (if b then (o >>= λ v. ok (result e v)) else ok (ReturnException.illegal_instruction, e))
converted e b (ok v) = supported_AllKeep e b (ok (result e v)) (AllKeep-result e v)
converted e b aborted = supported_AllKeep e b aborted tt
converted e b (exited c) = supported_AllKeep e b (exited c) tt
converted e b undefined = supported_AllKeep e b undefined tt

-- An instruction that writes a floating-point register or the flags, and one that writes `rd`.
module _ (p : Platform) (e : Emu) where
  floating :
      (e' : Emu)
      → e'.curr_instr ≡ e.curr_instr
      → e'.iregs ≡ e.iregs
      → AllKeep e (
          ok (
            if p.support_softfloat
            then (ReturnException.normal_execution_return, e')
            else (ReturnException.illegal_instruction, e)))
  floating e' instr regs = supported_Keeps e p.support_softfloat _ e' (Keeps-rest e e' instr regs)

  integral :
      (v : ℕ)
      → AllKeep e (
          ok (if p.support_softfloat then result e v else (ReturnException.illegal_instruction, e)))
  integral v = supported_Keeps e p.support_softfloat _ _ (AllKeep-result e v)

IsCall : Platform → IName → Type 0
IsCall p n = (n ≡ IName.ecall) × (p.build ≡ Build.fuzz)

called_in : (b : Build) (host : Host) (e : Emu) → b ≢ Build.fuzz → AllKeep e (ecall_of b host e)
unfolding ecall_of ecall_test ecall
called_in Build.fuzz host e h = absurd (h refl)
called_in Build.test host e h = Keeps-rest e _ refl refl
called_in Build.plain host e h = called e

handled_in : (p : Platform) (n : IName) (e : Emu) → ¬ IsCall p n → Runs e (init_func_map p n)
unfolding IsCall init_func_map flw fsw fmvxw fmvwx fmadds fmsubs fnmsubs fnmadds fadds fsubs fmuls
    fdivs fsgnjs fsgnjns fsgnjxs fmins fmaxs feqs flts fles fclasss fcvtws fcvtwus fcvtls fcvtlus
    fcvtsw fcvtswu fcvtsl fcvtslu update_float_flags reset_float_flags
handled_in p IName.ecall e h = called_in p.build p.host e (λ fuzz. h (refl, fuzz))
handled_in p IName.flw e h = supported_AllKeep e p.support_softfloat _ (
    AllKeep-load e (float_address e) 32 (λ e' value. ok (float_result p.floats e' (u32 value)))
      (λ e' value instr regs. Keeps-rest e _ instr regs))
handled_in p IName.fsw e h =
    supported_AllKeep e p.support_softfloat _ (AllKeep-store e e refl refl _ _ _)
handled_in p IName.fmadds e h = floating p e _ refl refl
handled_in p IName.fmsubs e h = floating p e _ refl refl
handled_in p IName.fnmsubs e h = floating p e _ refl refl
handled_in p IName.fnmadds e h = floating p e _ refl refl
handled_in p IName.fadds e h = floating p e _ refl refl
handled_in p IName.fsubs e h = floating p e _ refl refl
handled_in p IName.fmuls e h = floating p e _ refl refl
handled_in p IName.fdivs e h = floating p e _ refl refl
handled_in p IName.fsgnjs e h = floating p e _ refl refl
handled_in p IName.fsgnjns e h = floating p e _ refl refl
handled_in p IName.fsgnjxs e h = floating p e _ refl refl
handled_in p IName.fmins e h = floating p e _ refl refl
handled_in p IName.fmaxs e h = floating p e _ refl refl
handled_in p IName.fmvwx e h = floating p e _ refl refl
handled_in p IName.fcvtsw e h = floating p e _ refl refl
handled_in p IName.fcvtswu e h = floating p e _ refl refl
handled_in p IName.fcvtsl e h = floating p e _ refl refl
handled_in p IName.fcvtslu e h = floating p e _ refl refl
handled_in p IName.fmvxw e h = integral p e _
handled_in p IName.feqs e h = integral p e _
handled_in p IName.flts e h = integral p e _
handled_in p IName.fles e h = integral p e _
handled_in p IName.fclasss e h = integral p e _
handled_in p IName.fcvtws e h = converted e p.support_softfloat _
handled_in p IName.fcvtwus e h = converted e p.support_softfloat _
handled_in p IName.fcvtls e h = converted e p.support_softfloat _
handled_in p IName.fcvtlus e h = converted e p.support_softfloat _
handled_in p n e h = handled n e

-- Whatever an instruction returns, and on every one of its paths, it leaves the state with the same
-- instruction, with 0 in register 0 if it was there, and with every integer register but `rd` as it
-- was; the one exception are the system calls of the fuzzing build.
pub init_func_map-Keeps :
    (p : Platform) (n : IName) (handler : Emu → Outcome Handled) (e : Emu) (ex : ReturnException)
    (e' : Emu)
    → ¬ ((n ≡ IName.ecall) × (p.build ≡ Build.fuzz))
    → init_func_map p n ≡ some handler
    → handler e ≡ ok (ex, e')
    → Keeps e e'
unfolding IsCall
init_func_map-Keeps p n handler e ex e' h found runs =
    subst (AllKeep e) runs (subst (Runs e) found (handled_in p n e h))

-- Every name that the decoder can give an instruction has a handler in the table, except that of
-- FSQRT.S.
init_func_map_total :
    (p : Platform) (n : IName)
    → (n ≢ IName.fsqrts → (handler : Emu → Outcome Handled) × (init_func_map p n ≡ some handler))
      × (n ≡ IName.fsqrts → init_func_map p n ≡ none)
unfolding init_func_map inst_funcs
init_func_map_total p IName.fsqrts = (λ h. absurd (h refl), λ h. refl)
init_func_map_total p n = (λ h. (_, refl), λ h. cc)
