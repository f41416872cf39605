-- ===== src/Database/Keeps.antt =====
-- What computations leave of the committed tables, whatever becomes of their calls.
use api_starter.Base.{◌≡◌, refl, ◌∙◌, ap, inl, inr, Result, ok, err, Option-cases, arith}
use api_starter.Database.{Tables}
use api_starter.Database.Errors.{SqlError}
use api_starter.Database.Effect.{
  World, Eff, proceed, ◌>>=◌, ret, lift, on_error, recast, query, execute_in, begin, commit, fault,
}

-- A computation leaves the committed tables as they are, whatever becomes of its calls.
pub record Keeps {E A : Type 0} (m : Eff E A) : Type 0 where
  pub kept : (w : World) → (m w).1.tables ≡ w.tables

-- A computation that fails leaves them as they are.
pub record FailsClean {E A : Type 0} (m : Eff E A) : Type 0 where
  pub clean : (w : World) (e : E) → (m w).0 ≡ err e → (m w).1.tables ≡ w.tables

module _ {E A B : Type 0} (f : A → Eff E B) (t : Tables) where
  proceed-Keeps :
      (p : Result E A × World)
      → p.1.tables ≡ t
      → ((a : A) → Keeps (f a))
      → (proceed p f).1.tables ≡ t
  proceed-Keeps (ok a, w) e k = (k a).kept w ∙ e
  proceed-Keeps (err x, w) e k = e

  proceed-FailsClean :
      (p : Result E A × World) (x : E)
      → p.1.tables ≡ t
      → ((a : A) → FailsClean (f a))
      → (proceed p f).0 ≡ err x
      → (proceed p f).1.tables ≡ t
  proceed-FailsClean (ok a, w) x e k failed = (k a).clean w x failed ∙ e
  proceed-FailsClean (err y, w) x e k failed = e

pub Keeps-bind :
    {E A B : Type 0} {m : Eff E A} {f : A → Eff E B}
    → Keeps m
    → ((a : A) → Keeps (f a))
    → Keeps (m >>= f)
Keeps-bind {m} {f} h k = record { kept = λ w. proceed-Keeps f w.tables (m w) (h.kept w) k }

pub FailsClean-bind :
    {E A B : Type 0} {m : Eff E A} {f : A → Eff E B}
    → Keeps m
    → ((a : A) → FailsClean (f a))
    → FailsClean (m >>= f)
FailsClean-bind {m} {f} h k = record {
  clean = λ w x failed. proceed-FailsClean f w.tables (m w) x (h.kept w) k failed;
}

ok_is_no_error : {E A B : Type 0} {a : A} {x : E} → (Result.ok a) ≡ err x → B
ok_is_no_error h = absurd (ground arith)

-- A result that is only repackaged.
ret-FailsClean :
    {E A B : Type 0} (g : A → B) (t : Tables) (p : Result E A × World) (x : E)
    → (p.0 ≡ err x → p.1.tables ≡ t)
    → (proceed p (λ a. ret (g a))).0 ≡ err x
    → (proceed p (λ a. ret (g a))).1.tables ≡ t
ret-FailsClean g t (ok a, w) x h failed = ok_is_no_error failed
ret-FailsClean g t (err y, w) x h failed = let same : y ≡ x = ground arith in h (ap err same)

pub FailsClean-ret :
    {E A B : Type 0} {m : Eff E A} (g : A → B) → FailsClean m → FailsClean (m >>= λ a. ret (g a))
FailsClean-ret {m} g h = record {
  clean = λ w x failed. ret-FailsClean g w.tables (m w) x (h.clean w x) failed;
}

pub recast-Keeps :
    {E F A : Type 0} (g : E → F) (t : Tables) (p : Result E A × World)
    → p.1.tables ≡ t
    → (recast g p).1.tables ≡ t
recast-Keeps g t (ok a, w) e = e
recast-Keeps g t (err y, w) e = e

pub Keeps-on_error : {E F A : Type 0} (g : E → F) {m : Eff E A} → Keeps m → Keeps (on_error g m)
Keeps-on_error g {m} h = record { kept = λ w. recast-Keeps g w.tables (m w) (h.kept w) }

pub Keeps-query : {A : Type 0} (f : Tables → Result SqlError A) → Keeps (query f)
unfolding query
Keeps-query f = record { kept = λ w. refl }

pub Keeps-execute_in : (tx : Tables) (f : Tables → Result SqlError Tables) → Keeps (execute_in tx f)
unfolding execute_in
Keeps-execute_in tx f = record { kept = λ w. refl }

pub Keeps-begin : Keeps begin
unfolding begin
Keeps-begin = record { kept = λ w. refl }

pub Keeps-lift : {E A : Type 0} (result : Result E A) → Keeps (lift result)
Keeps-lift result = record { kept = λ w. refl }

-- A commit that fails does nothing.
pub FailsClean-commit :
    {F : Type 0} (g : SqlError → F) (tx : Tables) → FailsClean (on_error g (commit tx))
unfolding commit
FailsClean-commit g tx = record {
  clean = λ w x failed. elim (Option-cases (fault w.calls)) [
    | inl e ↦ absurd (ok_is_no_error (rw e at failed))
    | inr (sql, e) ↦ rw e refl
  ];
}
