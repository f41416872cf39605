-- ===== src/Env/Readers.antt =====
-- What the readers of settings give.
use api_starter.Base.{
  String, ◌≡◌, refl, Bool, true, false, not, Option, none, some, List, [], ◌∷◌, ok, err, All, keep,
  map, arith, Bool-cases, Option-cases, inl, inr, is_empty, if◌then◌else◌,
}
use mathlib.Core.Path.{subst}
use api_starter.Base.Text.{trim, is_empty_str, split}
use api_starter.Env.{invalid, string, parsed_or, vec, parsed}

module _ (var : String → Option String) where
  -- A setting of a type falls back to its default where the variable is absent or blank, and only
  -- there: a value that its parser refuses is an error that names the variable and the trimmed value.
  pub parsed_or_lem :
      {T : Type 0} (parse : String → Option T) (key : String) (fallback : T)
      → (string var key ≡ none → parsed_or var parse key fallback ≡ ok fallback)
        × ((value : String) (t : T)
            → string var key ≡ some value
            → parse value ≡ some t
            → parsed_or var parse key fallback ≡ ok t)
        × ((value : String)
            → string var key ≡ some value
            → parse value ≡ none
            → parsed_or var parse key fallback ≡ err (invalid key value))
  unfolding parsed_or parsed
  parsed_or_lem parse key fallback = (
    λ h. rw (h, parsed) refl,
    λ value t h p. rw (h, parsed) (rw p refl),
    λ value h p. rw (h, parsed) (rw p refl),
  )

  none_is_some : {A B : Type 0} {a : A} → ◌≡◌ {A = Option A} none (some a) → B
  none_is_some h = absurd (ground arith)

  keep-All : (p : String → Bool) (xs : List String) → All (λ x. p x ≡ true) (keep p xs)
  keep-All p [] = tt
  keep-All p (x ∷ xs) = elim (Bool-cases (p x)) [
    | inl e ↦ rw e (e, keep-All p xs)
    | inr e ↦ rw e (keep-All p xs)
  ]

  nonempty :
      (entries es : List String)
      → All (λ x. not (is_empty_str x) ≡ true) entries
      → (if is_empty entries then none else some entries) ≡ some es
      → All (λ x. not (is_empty_str x) ≡ true) es × (is_empty es ≡ false)
  nonempty [] es h e = absurd (ground arith)
  nonempty (x ∷ xs) es h e =
      let same : x ∷ xs ≡ es = ground arith in
      subst (λ l. All (λ x. not (is_empty_str x) ≡ true) l × (is_empty l ≡ false)) same (h, refl)

  -- A list that a setting gives has at least one entry and no empty one.
  pub vec-entries :
      (key : String) (es : List String)
      → vec var key ≡ some es
      → All (λ x. not (is_empty_str x) ≡ true) es × (is_empty es ≡ false)
  unfolding vec
  vec-entries key es h = elim (Option-cases (string var key)) [
    | inl e ↦ absurd (none_is_some (rw e at h))
    | inr (value, e) ↦
        nonempty _ es (keep-All (λ x. not (is_empty_str x)) (map trim (split b',' value)))
          (rw e at h)
  ]
