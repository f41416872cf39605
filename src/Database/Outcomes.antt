-- ===== src/Database/Outcomes.antt =====
-- What a transaction may leave behind: the tables as they were, or a copy that its statements made.
use api_starter.Base.{
  ◌≡◌, refl, sym, ◌∙◌, ap, Result, ok, err, Option-cases, arith, inl, inr, ok_inj, Bool, true,
  false, if◌then◌else◌,
}
use mathlib.Core.Path.{subst}
use api_starter.Database.{Tables}
use api_starter.Database.Errors.{SqlError}
use api_starter.Database.Effect.{
  World, Eff, proceed, recast, ◌>>=◌, ret, lift, on_error, begin, commit, fault, execute_in,
  execute, query, ◌>>◌,
}
use api_starter.Database.Keeps.{Keeps, recast-Keeps}

-- Where a computation starts at tables, it leaves these as they are, and its result, if it gives
-- one, satisfies a predicate.
pub record Gives {E A : Type 0} (t : Tables) (P : A → Type 0) (m : Eff E A) : Type 0 where
  pub same : (w : World) → w.tables ≡ t → (m w).1.tables ≡ t
  pub result : (w : World) → w.tables ≡ t → (a : A) → (m w).0 ≡ ok a → P a

-- Where a computation starts at tables, whatever tables it leaves satisfy a predicate.
pub record Leaves {E A : Type 0} (t : Tables) (Q : Tables → Type 0) (m : Eff E A) : Type 0 where
  pub left_as : (w : World) → w.tables ≡ t → Q (m w).1.tables

module _ {E A B : Type 0} (t : Tables) (Q : Tables → Type 0) (P : A → Type 0)
    (f : A → Eff E B) where
  proceed-Leaves :
      (p : Result E A × World)
      → Q t
      → p.1.tables ≡ t
      → ((a : A) → p.0 ≡ ok a → P a)
      → ((a : A) → P a → Leaves t Q (f a))
      → Q (proceed p f).1.tables
  proceed-Leaves (ok a, w) q e g k = (k a (g a refl)).left_as w e
  proceed-Leaves (err x, w) q e g k = subst Q (sym e) q

pub Leaves-bind :
    {E A B : Type 0} {t : Tables} {Q : Tables → Type 0} {m : Eff E A} {f : A → Eff E B}
    (P : A → Type 0)
    → Q t
    → Gives t P m
    → ((a : A) → P a → Leaves t Q (f a))
    → Leaves t Q (m >>= f)
Leaves-bind {t} {Q} {m} {f} P q g k = record {
  left_as = λ w e. proceed-Leaves t Q P f (m w) q (g.same w e) (g.result w e) k;
}

-- A computation that changes nothing may give anything.
pub Gives-Keeps : {E A : Type 0} {t : Tables} {m : Eff E A} → Keeps m → Gives t (λ a. Unit {0}) m
Gives-Keeps h = record { same = λ w e. h.kept w ∙ e; result = λ w e a r. tt }

recast_result :
    {E F A : Type 0} (g : E → F) (p : Result E A × World) (a : A)
    → (recast g p).0 ≡ ok a
    → p.0 ≡ ok a
recast_result g (ok b, w) a h = let same : b ≡ a = ground arith in ap ok same
recast_result g (err y, w) a h = absurd (ground arith)

pub Gives-on_error :
    {E F A : Type 0} {t : Tables} {P : A → Type 0} (g : E → F) {m : Eff E A}
    → Gives t P m
    → Gives t P (on_error g m)
Gives-on_error {t} g {m} h = record {
  same = λ w e. recast-Keeps g t (m w) (h.same w e);
  result = λ w e a r. h.result w e a (recast_result g (m w) a r);
}

pub no_ok : {E A B : Type 0} {a : A} {x : E} → ◌≡◌ {A = Result E A} (err x) (ok a) → B
no_ok h = absurd (ground arith)

-- The copy that a transaction starts from.
pub Gives-begin : {t : Tables} → Gives t (λ tx. t ≡ tx) begin
unfolding begin
Gives-begin {t} = record {
  same = λ w e. e;
  result = λ w e tx r. elim (Option-cases (fault w.calls)) [
    | inl h ↦ sym e ∙ ok_inj (rw h at r)
    | inr (x, h) ↦ absurd (no_ok (rw h at r))
  ];
}

-- A statement in a transaction gives what it makes of the copy.
pub Gives-execute_in :
    {t : Tables} (P : Tables → Type 0) (tx : Tables) (f : Tables → Result SqlError Tables)
    → ((after : Tables) → f tx ≡ ok after → P after)
    → Gives t P (execute_in tx f)
unfolding execute_in
Gives-execute_in P tx f h = record {
  same = λ w e. e;
  result = λ w e after r. elim (Option-cases (fault w.calls)) [
    | inl k ↦ h after (rw k at r)
    | inr (x, k) ↦ absurd (no_ok (rw k at r))
  ];
}

pub Leaves-commit :
    {F : Type 0} {t : Tables} (Q : Tables → Type 0) (g : SqlError → F) (tx : Tables)
    → Q t
    → Q tx
    → Leaves t Q (on_error g (commit tx))
unfolding commit
Leaves-commit Q g tx before after = record {
  left_as = λ w e. elim (Option-cases (fault w.calls)) [
    | inl h ↦ rw h after
    | inr (x, h) ↦ rw h (subst Q (sym e) before)
  ];
}

pub Gives-lift :
    {E A : Type 0} {t : Tables} (P : A → Type 0) {a : A} → P a → Gives {E = E} t P (lift (ok a))
Gives-lift P h = record { same = λ w e. e; result = λ w e b r. subst P (ok_inj r) h }

pub Gives-lift_if :
    {E A : Type 0} {t : Tables} {P : A → Type 0} {r : Result E A}
    → ((a : A) → r ≡ ok a → P a)
    → Gives t P (lift r)
Gives-lift_if h = record { same = λ w e. e; result = λ w e a r. h a r }

pub Gives-if :
    {E A : Type 0} {t : Tables} {P : A → Type 0} (b : Bool) {m n : Eff E A}
    → Gives t P m
    → Gives t P n
    → Gives t P (if b then m else n)
Gives-if true h k = h
Gives-if false h k = k

module _ {E A B : Type 0} (t : Tables) (P : A → Type 0) (R : B → Type 0) (f : A → Eff E B) where
  proceed_same :
      (p : Result E A × World)
      → p.1.tables ≡ t
      → ((a : A) → p.0 ≡ ok a → P a)
      → ((a : A) → P a → Gives t R (f a))
      → (proceed p f).1.tables ≡ t
  proceed_same (ok a, w) e g k = (k a (g a refl)).same w e
  proceed_same (err x, w) e g k = e

  proceed_result :
      (p : Result E A × World) (b : B)
      → p.1.tables ≡ t
      → ((a : A) → p.0 ≡ ok a → P a)
      → ((a : A) → P a → Gives t R (f a))
      → (proceed p f).0 ≡ ok b
      → R b
  proceed_result (ok a, w) b e g k r = (k a (g a refl)).result w e b r
  proceed_result (err x, w) b e g k r = absurd (no_ok r)

pub Gives-bind :
    {E A B : Type 0} {t : Tables} {R : B → Type 0} {m : Eff E A} {f : A → Eff E B} (P : A → Type 0)
    → Gives t P m
    → ((a : A) → P a → Gives t R (f a))
    → Gives t R (m >>= f)
Gives-bind {t} {R} {m} {f} P h k = record {
  same = λ w e. proceed_same t P R f (m w) (h.same w e) (h.result w e) k;
  result = λ w e b r. proceed_result t P R f (m w) b (h.same w e) (h.result w e) k r;
}

ret-Leaves :
    {E A B : Type 0} (g : A → B) (Q : Tables → Type 0) (p : Result E A × World)
    → Q p.1.tables
    → Q (proceed p (λ a. ret (g a))).1.tables
ret-Leaves g Q (ok a, w) q = q
ret-Leaves g Q (err x, w) q = q

-- A result that is only repackaged.
pub Leaves-ret :
    {E A B : Type 0} {t : Tables} {Q : Tables → Type 0} {m : Eff E A} (g : A → B)
    → Leaves t Q m
    → Leaves t Q (m >>= λ a. ret (g a))
Leaves-ret {Q} {m} g h = record { left_as = λ w e. ret-Leaves g Q (m w) (h.left_as w e) }

pub Gives-weaken :
    {E A : Type 0} {t : Tables} {P R : A → Type 0} {m : Eff E A}
    → ((a : A) → P a → R a)
    → Gives t P m
    → Gives t R m
Gives-weaken h g = record { same = g.same; result = λ w e a r. h a (g.result w e a r) }

-- A read gives what it selects.
pub Gives-query :
    {A : Type 0} {t : Tables} (f : Tables → Result SqlError A) → Gives t (λ a. f t ≡ ok a) (query f)
unfolding query
Gives-query {t} f = record {
  same = λ w e. e;
  result = λ w e a r. elim (Option-cases (fault w.calls)) [
    | inl k ↦ ap f (sym e) ∙ (rw k at r)
    | inr (x, k) ↦ absurd (no_ok (rw k at r))
  ];
}

-- A statement that changes the committed tables, and what follows it.
pub Leaves-execute :
    {F : Type 0} {t t' : Tables} (Q : Tables → Type 0) (g : SqlError → F)
    (f : Tables → Result SqlError (Unit {0} × Tables)) (k : Eff F (Unit {0}))
    → Q t
    → f t ≡ ok (tt, t')
    → Leaves t' Q k
    → Leaves t Q (on_error g (execute f) >> k)
unfolding execute
Leaves-execute {t} {t'} Q g f k before made after = record {
  left_as = λ w e. elim (Option-cases (fault w.calls)) [
    | inl h ↦ rw h (rw e (rw made (after.left_as _ refl)))
    | inr (x, h) ↦ rw h (subst Q (sym e) before)
  ];
}

-- The last statement.
pub Leaves-last :
    {F : Type 0} {t t' : Tables} (Q : Tables → Type 0) (g : SqlError → F)
    (f : Tables → Result SqlError (Unit {0} × Tables))
    → Q t
    → f t ≡ ok (tt, t')
    → Q t'
    → Leaves t Q (on_error g (execute f))
unfolding execute
Leaves-last {t} {t'} Q g f before made after = record {
  left_as = λ w e. elim (Option-cases (fault w.calls)) [
    | inl h ↦ rw h (rw e (rw made after))
    | inr (x, h) ↦ rw h (subst Q (sym e) before)
  ];
}

-- A computation that leaves the tables alone.
pub Leaves-Keeps :
    {E A : Type 0} {t : Tables} (Q : Tables → Type 0) {m : Eff E A} → Q t → Keeps m → Leaves t Q m
Leaves-Keeps Q q h = record { left_as = λ w e. subst Q (sym (h.kept w ∙ e)) q }
