-- ===== src/Base/Pairwise.antt =====
-- Lists whose entries stand pairwise in a relation: the unique keys of a table.
use mathlib.Core.Path.{◌≡◌, subst}
use mathlib.Core.Bool.{Bool, true, false}
use mathlib.Core.Option.{some}
use mathlib.Core.List.{List, [], ◌∷◌, ◌++◌, map}
use mathlib.Core.Option.{some}
use mathlib.Core.Logic.{inl, inr}
use native.Mathlib.Omega.{arith}
use api_starter.Base.Tests.{Bool-cases}
use api_starter.Base.Lists.{All, all, any, find, is_empty, keep, All-append}

module _ {ℓ} {A : Type ℓ} where
  abbrev pub Pairwise : (A → A → Type 0) → List A → Type 0
  Pairwise R [] = Unit
  Pairwise R (x ∷ xs) = All (R x) xs × Pairwise R xs

  pub All-map :
      {B : Type 0} (P : B → Type 0) (f : A → B) (xs : List A)
      → All (λ x. P (f x)) xs
      → All P (map f xs)
  All-map P f [] h = tt
  All-map P f (x ∷ xs) (here, rest) = (here, All-map P f xs rest)

  pub All-weaken : (P Q : A → Type 0) (xs : List A) → ((x : A) → P x → Q x) → All P xs → All Q xs
  All-weaken P Q [] h all = tt
  All-weaken P Q (x ∷ xs) h (here, rest) = (h x here, All-weaken P Q xs h rest)

  pub All-every : (P : A → Type 0) (xs : List A) → ((x : A) → P x) → All P xs
  All-every P [] h = tt
  All-every P (x ∷ xs) h = (h x, All-every P xs h)

  pub All-zip :
      (P Q S : A → Type 0) (xs : List A)
      → ((x : A) → P x → Q x → S x)
      → All P xs
      → All Q xs
      → All S xs
  All-zip P Q S [] h ps qs = tt
  All-zip P Q S (x ∷ xs) h (p, ps) (q, qs) = (h x p q, All-zip P Q S xs h ps qs)

  -- What is kept passed the test.
  pub All-keep :
      (P : A → Type 0) (p : A → Bool) (xs : List A)
      → All (λ x. p x ≡ true → P x) xs
      → All P (keep p xs)
  All-keep P p [] h = tt
  All-keep P p (x ∷ xs) (here, rest) = elim (Bool-cases (p x)) [
    | inl e ↦ rw e (here e, All-keep P p xs rest)
    | inr e ↦ rw e (All-keep P p xs rest)
  ]

  -- A test that no entry passes.
  pub any-eq-false : (p : A → Bool) (xs : List A) → any p xs ≡ false → All (λ x. p x ≡ false) xs
  any-eq-false p [] h = tt
  any-eq-false p (x ∷ xs) h = (ground arith, any-eq-false p xs (ground arith))

  -- Every entry is found by a test that it passes.
  pub any-of-each :
      (q : A → A → Bool) (xs : List A)
      → ((x : A) → q x x ≡ true)
      → All (λ x. any (q x) xs ≡ true) xs
  any-of-each q [] h = tt
  any-of-each q (x ∷ xs) h =
      (ground (arith, h x), All-weaken _ _ xs (λ y found. ground arith) (any-of-each q xs h))

  pub all-All : (p : A → Bool) (xs : List A) → all p xs ≡ true → All (λ x. p x ≡ true) xs
  all-All p [] h = tt
  all-All p (x ∷ xs) h = (ground arith, all-All p xs (ground arith))

  pub All-empty : (P : A → Type 0) (xs : List A) → is_empty xs ≡ true → All P xs
  All-empty P [] h = tt
  All-empty P (x ∷ xs) h = absurd (ground arith)

  -- What an entry that a search finds passes.
  -- What is found has what all have.
  pub find-All :
      (P : A → Type 0) (p : A → Bool) (xs : List A) {x : A} → All P xs → find p xs ≡ some x → P x
  find-All P p [] h found = absurd (ground arith)
  find-All P p (y ∷ xs) {x} (here, rest) found = elim (Bool-cases (p y)) [
    | inl e ↦ let same : y ≡ x = ground arith in subst P same here
    | inr e ↦ find-All P p xs rest (rw e at found)
  ]

  pub find-passes : (p : A → Bool) (xs : List A) {x : A} → find p xs ≡ some x → p x ≡ true
  find-passes p [] h = absurd (ground arith)
  find-passes p (y ∷ xs) {x} h = elim (Bool-cases (p y)) [
    | inl e ↦ let same : y ≡ x = ground arith in rw same at e
    | inr e ↦ find-passes p xs (rw e at h)
  ]

  pub Pairwise-keep :
      (R : A → A → Type 0) (p : A → Bool) (xs : List A) → Pairwise R xs → Pairwise R (keep p xs)
  Pairwise-keep R p [] h = tt
  Pairwise-keep R p (x ∷ xs) (here, rest) = elim (Bool-cases (p x)) [
    | inl e ↦ rw e (
      All-keep (R x) p xs (All-weaken (R x) _ xs (λ y r passed. r) here),
      Pairwise-keep R p xs rest,
    )
    | inr e ↦ rw e (Pairwise-keep R p xs rest)
  ]

  pub Pairwise-append :
      (R : A → A → Type 0) (xs ys : List A)
      → Pairwise R xs
      → Pairwise R ys
      → All (λ x. All (R x) ys) xs
      → Pairwise R (xs ++ ys)
  Pairwise-append R [] ys h k across = k
  Pairwise-append R (x ∷ xs) ys (here, rest) k (first, across) =
      (All-append (R x) xs ys here first, Pairwise-append R xs ys rest k across)

module _ {A B : Type 0} where
  pairs_with :
      (P : A → Type 0) (R : A → A → Type 0) (S : B → B → Type 0) (g : A → B) (x : A) (xs : List A)
      → ((x y : A) → P x → P y → R x y → S (g x) (g y))
      → P x
      → All P xs
      → All (R x) xs
      → All (S (g x)) (map g xs)
  pairs_with P R S g x [] h p ps rs = tt
  pairs_with P R S g x (y ∷ xs) h p (q, ps) (r, rs) =
      (h x y p q r, pairs_with P R S g x xs h p ps rs)

  -- A change of each entry that keeps the relation, where the entries satisfy a predicate.
  pub Pairwise-map :
      (P : A → Type 0) (R : A → A → Type 0) (S : B → B → Type 0) (g : A → B) (xs : List A)
      → ((x y : A) → P x → P y → R x y → S (g x) (g y))
      → All P xs
      → Pairwise R xs
      → Pairwise S (map g xs)
  Pairwise-map P R S g [] h ps rs = tt
  Pairwise-map P R S g (x ∷ xs) h (p, ps) (r, rs) =
      (pairs_with P R S g x xs h p ps r, Pairwise-map P R S g xs h ps rs)

  -- What holds of all pairs, read the other way round.
  pub All-swap :
      (R : A → B → Type 0) (xs : List A) (ys : List B)
      → All (λ y. All (λ x. R x y) xs) ys
      → All (λ x. All (R x) ys) xs
  All-swap R [] ys h = tt
  All-swap R (x ∷ xs) ys h =
      (All-weaken _ (R x) ys (λ y p. p.0) h, All-swap R xs ys (All-weaken _ _ ys (λ y p. p.1) h))
