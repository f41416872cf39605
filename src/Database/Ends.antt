-- ===== src/Database/Ends.antt =====
-- What a computation that succeeds leaves behind.
use api_starter.Base.{◌≡◌, refl, Result, ok, err, Option-cases, inl, inr}
use api_starter.Database.{Tables}
use api_starter.Database.Errors.{SqlError}
use api_starter.Database.Effect.{World, Eff, proceed, ◌>>=◌, on_error, commit, fault}
use api_starter.Database.Outcomes.{Gives, no_ok}

-- Where a computation starts at tables and gives a result, the tables that it leaves satisfy a
-- predicate.
pub record Ends {E A : Type 0} (t : Tables) (Q : Tables → Type 0) (m : Eff E A) : Type 0 where
  pub ends_as : (w : World) → w.tables ≡ t → (a : A) → (m w).0 ≡ ok a → Q (m w).1.tables

module _ {E A B : Type 0} (t : Tables) (Q : Tables → Type 0) (P : A → Type 0)
    (f : A → Eff E B) where
  proceed-Ends :
      (p : Result E A × World) (b : B)
      → p.1.tables ≡ t
      → ((a : A) → p.0 ≡ ok a → P a)
      → ((a : A) → P a → Ends t Q (f a))
      → (proceed p f).0 ≡ ok b
      → Q (proceed p f).1.tables
  proceed-Ends (ok a, w) b e g k r = (k a (g a refl)).ends_as w e b r
  proceed-Ends (err x, w) b e g k r = absurd (no_ok r)

pub Ends-bind :
    {E A B : Type 0} {t : Tables} {Q : Tables → Type 0} {m : Eff E A} {f : A → Eff E B}
    (P : A → Type 0)
    → Gives t P m
    → ((a : A) → P a → Ends t Q (f a))
    → Ends t Q (m >>= f)
Ends-bind {t} {Q} {m} {f} P g k = record {
  ends_as = λ w e b r. proceed-Ends t Q P f (m w) b (g.same w e) (g.result w e) k r;
}

pub Ends-commit :
    {F : Type 0} {t : Tables} (Q : Tables → Type 0) (g : SqlError → F) (tx : Tables)
    → Q tx
    → Ends t Q (on_error g (commit tx))
unfolding commit
Ends-commit Q g tx after = record {
  ends_as = λ w e a r. elim (Option-cases (fault w.calls)) [
    | inl h ↦ rw h after
    | inr (x, h) ↦ absurd (no_ok (rw h at r))
  ];
}
