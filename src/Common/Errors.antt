-- ===== src/Common/Errors.antt =====
-- A call that may throw: `thrown` stands for the exception that leaves the call.
use mathlib.Core.Path.{◌≡◌, refl}
use mathlib.Core.Logic.{◌⊎◌, inl, inr}
use mathlib.Core.Option.{Option, none, some}
use mathlib.Core.Bool.{Bool, not}
use mathlib.Core.List.{List, []}
use Prim.Native.Nat.{ℕ}
use reduct_cpp.Common.Int.{ℤ, pos, ◌==ℤ◌}

pub data Except {ℓ} (A : Type ℓ) : Type ℓ where
  ok : A → Except A
  thrown : Except A

infixl 5 ◌>>=◌
abbrev pub ◌>>=◌ {ℓ κ} : {A : Type ℓ} {B : Type κ} → Except A → (A → Except B) → Except B
ok a >>= f = f a
thrown >>= f = thrown

-- `try { … } catch (...) { … }` around a call, with the handler's value.
abbrev pub or_else {ℓ} : {A : Type ℓ} → Except A → A → A
or_else (ok a) d = a
or_else thrown d = d

abbrev pub to_option {ℓ} : {A : Type ℓ} → Except A → Option A
to_option (ok a) = some a
to_option thrown = none

pub Except-cases {ℓ} : {A : Type ℓ} (e : Except A) → (e ≡ thrown) ⊎ ((a : A) × (e ≡ ok a))
Except-cases (ok a) = inr (a, refl)
Except-cases thrown = inl refl

-- A run that may also have no meaning: `undefined` stands for undefined behaviour.
pub data Run {ℓ} (A : Type ℓ) : Type ℓ where
  done : A → Run A
  raised : Run A
  undefined : Run A

abbrev pub then_run {ℓ κ} : {A : Type ℓ} {B : Type κ} → Run A → (A → Run B) → Run B
then_run (done a) f = f a
then_run raised f = raised
then_run undefined f = undefined

abbrev pub run {ℓ} : {A : Type ℓ} → Except A → Run A
run (ok a) = done a
run thrown = raised

-- `reduct::Error`: a code that is 0 where nothing failed, and a message (error.h, error.cc).
pub record Error : Type 0 where
  pub code : ℤ
  pub message : List ℕ

-- `Error::kOk`
abbrev pub no_error : Error
no_error = record { code = pos 0; message = [] }

-- `Error::operator bool`
abbrev pub is_error : Error → Bool
is_error e = not (e.code ==ℤ pos 0)

-- `reduct::Result` (result.h)
pub record Result {ℓ} (A : Type ℓ) : Type ℓ where
  pub result : A
  pub error : Error
