-- ===== src/Rbac/Actions.antt =====
-- Actions of the form `Resource.Permission`.
use api_starter.Base.{
  String, Bool, true, false, not, ◌<>◌, ◌≡◌, refl, sym, ◌∙◌, nat_eq_iff, Char, ◌↔◌, Option, none,
  some, code, nat_eq, arith, Bool-cases, inl, inr, ap, Option-cases,
}
use api_starter.Base.Text.{split_once, all_char}
use api_starter.Rbac.{split_action}
use Prim.Native.String.{[], ◌∷◌}
use text.Mathlib.TextEquality.{Char-path}
use text.Mathlib.TextLemmas.{nil-append, cons-append}

-- No character of the text is a dot.
abbrev pub has_no_dot : String → Bool
has_no_dot s = all_char (λ c. not (nat_eq (code c) b'.')) s

dot-append : (s : String) → "." <> s ≡ "." ∷ s
dot-append s = cons-append "." [] s ∙ ap (λ t. "." ∷ t) (nil-append s)

some_pair_left :
    {a b c d : String} → ◌≡◌ {A = Option (String × String)} (some (a, b)) (some (c, d)) → a ≡ c
some_pair_left {a} {c} e = ap (λ o. elim o [ none ↦ a | some (x, y) ↦ x ]) e

some_pair_right :
    {a b c d : String} → ◌≡◌ {A = Option (String × String)} (some (a, b)) (some (c, d)) → b ≡ d
some_pair_right {b} {d} e = ap (λ o. elim o [ none ↦ b | some (x, y) ↦ y ]) e

-- What `split_once` answers, one character at a time.
split_once-dot :
    (c : Char) (s : String) → nat_eq (code c) b'.' ≡ true → split_once b'.' (c ∷ s) ≡ some ("", s)
unfolding split_once
split_once-dot c s h = rw h

split_once-other :
    (c : Char) (s a b : String)
    → nat_eq (code c) b'.' ≡ false
    → split_once b'.' s ≡ some (a, b)
    → split_once b'.' (c ∷ s) ≡ some (c ∷ a, b)
unfolding split_once
split_once-other c s a b h e = rw (h, e)

split_once-none :
    (c : Char) (s : String)
    → nat_eq (code c) b'.' ≡ false
    → split_once b'.' s ≡ none
    → split_once b'.' (c ∷ s) ≡ none
unfolding split_once
split_once-none c s h e = rw (h, e)

abbrev Splits : String → String → String → Type 0
Splits s a b = (s ≡ a <> ("." <> b)) × (has_no_dot a ≡ true)

split_sound : (s a b : String) → split_once b'.' s ≡ some (a, b) → Splits s a b
split_sound [] a b h = let e : split_once b'.' "" ≡ none = unfold split_once in refl in cc
split_sound (c ∷ s) a b h = elim (Bool-cases (nat_eq (code c) b'.')) [
  | inl dot ↦
      let here : c ≡ "." = Char-path c "." ((nat_eq_iff _ _).0 dot) in
      let e = sym (split_once-dot c s dot) ∙ h in
      rw (← (some_pair_left e), ← (some_pair_right e), here, nil-append, dot-append) (refl, refl)
  | inr other ↦ elim (Option-cases (split_once b'.' s)) [
    | inl missing ↦ cc (split_once-none c s other missing)
    | inr ((a', b'), found) ↦
        let (joined, plain) = split_sound s a' b' found in
        let e = sym (split_once-other c s a' b' other found) ∙ h in
        rw (← (some_pair_left e), ← (some_pair_right e))
          ((ap (λ t. c ∷ t) joined ∙ sym (cons-append c a' _)), rw other plain)
  ]
]

split_complete :
    (a b : String) → has_no_dot a ≡ true → split_once b'.' (a <> ("." <> b)) ≡ some (a, b)
split_complete [] b h = rw (nil-append, dot-append) (split_once-dot "." b refl)
split_complete (c ∷ a) b h =
    rw cons-append (split_once-other c _ a b (ground arith) (split_complete a b (ground arith)))

-- An action splits into a resource and a permission exactly where it is the resource, a dot and
-- the permission, and the resource has no dot: the first dot separates, and later dots belong to
-- the permission.
pub split_action_iff :
    (action resource permission : String)
    → (split_action action ≡ some (resource, permission))
      ↔ ((action ≡ resource <> ("." <> permission)) × (has_no_dot resource ≡ true))
unfolding split_action
split_action_iff action resource permission = (
  split_sound action resource permission,
  λ (joined, plain). rw joined (split_complete resource permission plain),
)
