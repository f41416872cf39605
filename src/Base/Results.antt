-- ===== src/Base/Results.antt =====
-- `Result<A, E>`, and `?` as bind.
use mathlib.Core.Path.{◌≡◌, refl, ap}
use mathlib.Core.Logic.{◌⊎◌, inl, inr}
use mathlib.Core.Option.{Option, none, some}
use native.Mathlib.Omega.{arith}

pub data Result (E A : Type 0) : Type 0 where
  ok : A → Result E A
  err : E → Result E A

module _ {E : Type 0} where
  infixl 5 ◌>>=◌ ◌>>◌
  abbrev pub ◌>>=◌ : {A B : Type 0} → Result E A → (A → Result E B) → Result E B
  ok a >>= f = f a
  err e >>= f = err e

  abbrev pub ◌>>◌ : {B : Type 0} → Result E (Unit {0}) → Result E B → Result E B
  m >> k = m >>= λ _. k

  -- `Result::map`
  abbrev pub map_ok : {A B : Type 0} → (A → B) → Result E A → Result E B
  map_ok f (ok a) = ok (f a)
  map_ok f (err e) = err e

  -- `Option::ok_or_else`
  abbrev pub ok_or : {A : Type 0} → E → Option A → Result E A
  ok_or e none = err e
  ok_or e (some a) = ok a

  pub Result-cases :
      {A : Type 0} (r : Result E A) → ((a : A) × (r ≡ ok a)) ⊎ ((e : E) × (r ≡ err e))
  Result-cases (ok a) = inl (a, refl)
  Result-cases (err e) = inr (e, refl)

-- `Result::map_err`
abbrev pub map_err : {E F A : Type 0} → (E → F) → Result E A → Result F A
map_err f (ok a) = ok a
map_err f (err e) = err (f e)

-- `Result::ok`
abbrev pub result_ok : {E A : Type 0} → Result E A → Option A
result_ok (ok a) = some a
result_ok (err e) = none

-- `Option::and_then`
abbrev pub and_then : {A B : Type 0} → (A → Option B) → Option A → Option B
and_then f none = none
and_then f (some a) = f a

-- `Option::unwrap_or`
abbrev pub unwrap_or : {A : Type 0} → A → Option A → A
unwrap_or d none = d
unwrap_or d (some a) = a

pub ok_inj : {E A : Type 0} {a b : A} → ◌≡◌ {A = Result E A} (ok a) (ok b) → a ≡ b
ok_inj h = ground arith

pub ok_or-eq-ok : {E A : Type 0} (e : E) (o : Option A) {a : A} → ok_or e o ≡ ok a → o ≡ some a
ok_or-eq-ok e none h = absurd (ground arith)
ok_or-eq-ok e (some b) {a} h = let same : b ≡ a = ground arith in ap some same

-- Where a chain gives a value, so do its first step and what follows that.
pub bind-eq-ok :
    {E A B : Type 0} {last : B} (step : Result E A) (rest : A → Result E B)
    → step >>= rest ≡ ok last
    → (middle : A) × (rest middle ≡ ok last) × (step ≡ ok middle)
bind-eq-ok (err reason) rest stopped = absurd (ground arith)
bind-eq-ok (ok middle) rest went_on = (middle, went_on, refl)

pub map_ok-eq-ok :
    {E A B : Type 0} (f : A → B) (m : Result E A) {b : B}
    → map_ok f m ≡ ok b
    → (a : A) × (m ≡ ok a) × (f a ≡ b)
map_ok-eq-ok f (ok a) h = (a, refl, ok_inj h)
map_ok-eq-ok f (err e) h = absurd (ground arith)
