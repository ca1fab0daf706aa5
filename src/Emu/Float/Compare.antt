-- ===== src/Emu/Float/Compare.antt =====
-- The comparisons and the classification of floats of src/VEmu.cpp.
use vemu.Common.{ℕ, Bool, not, ◌&&◌, ◌==◌, if◌then◌else◌}
use vemu.Emu.Platform.{FpClass, Floats, Platform}
use vemu.Emu.State.{Emu, Handled, result}
use vemu.Emu.Float.Access.{op1, op2, float_result, supported}
use vemu.Emu.Float.Arith.{op2_of_rs1}

-- On the pattern of a `double`.
unfoldable pub is_negative_zero : Floats → ℕ → Bool
is_negative_zero fl d = fl.equal_double d 0 && not (d == 0)

unfoldable pub is_positive_zero : Floats → ℕ → Bool
is_positive_zero fl d = fl.equal_double d 0 && d == 0

-- The branches of FMIN and FMAX: what to store for (+0, -0), for (-0, +0) and otherwise.
abbrev pub choose_zero : Floats → ℕ → ℕ → ℕ → ℕ → ℕ → ℕ
unfolding is_negative_zero is_positive_zero
choose_zero fl a b plus_minus minus_plus otherwise =
    let da = fl.to_double a in
    let db = fl.to_double b in
    if is_positive_zero fl da && is_negative_zero fl db
    then plus_minus
    else if is_negative_zero fl da && is_positive_zero fl db
    then minus_plus
    else otherwise

unfoldable pub fmins : Platform → Emu → Handled
fmins p e =
    let fl = p.floats in
    let a = op1 fl e in
    let b = op2_of_rs1 fl e in
    supported p e (float_result fl e (choose_zero fl a b b a (fl.fmin a b)))

unfoldable pub fmaxs : Platform → Emu → Handled
fmaxs p e =
    let fl = p.floats in
    let a = op1 fl e in
    let b = op2_of_rs1 fl e in
    supported p e (float_result fl e (choose_zero fl a b a b (fl.fmax a b)))

abbrev pub flag : Bool → ℕ
flag b = if b then 1 else 0

unfoldable pub feqs : Platform → Emu → Handled
feqs p e = let fl = p.floats in supported p e (result e (flag (fl.equal (op1 fl e) (op2 fl e))))

unfoldable pub flts : Platform → Emu → Handled
flts p e = let fl = p.floats in supported p e (result e (flag (fl.less (op1 fl e) (op2 fl e))))

unfoldable pub fles : Platform → Emu → Handled
fles p e = let fl = p.floats in supported p e (result e (flag (fl.at_most (op1 fl e) (op2 fl e))))

unfoldable pub class_code : FpClass → Bool → ℕ
class_code FpClass.infinite sign = if sign then 0 else 7
class_code FpClass.normal sign = if sign then 1 else 6
class_code FpClass.subnormal sign = if sign then 2 else 5
class_code FpClass.zero sign = if sign then 3 else 4
class_code FpClass.nan sign = 9
class_code FpClass.other sign = 0

unfoldable pub fclasss : Platform → Emu → Handled
fclasss p e =
    let fl = p.floats in
    let op = op1 fl e in supported p e (result e (class_code (fl.fpclassify op) (fl.signbit op)))
