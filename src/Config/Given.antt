-- ===== src/Config/Given.antt =====
-- What a setting is by the value of its variable, and what the readers of settings make of it.
use api_starter.Base.{
  ◌==◌, ◌||◌, if◌then◌else◌, ℕ, String, ◌≡◌, ◌≢◌, ◌≤◌, ◌⊎◌, inl, inr, refl, Bool, true, false,
  Option, none, some, Result, ok, err, map_ok, ◌>>=◌, arith, Option-cases, Bool-cases,
}
use mathlib.Core.Path.{subst}
use api_starter.Base.Text.{trim, is_empty_str}
use api_starter.Base.Decimal.{parse_i64, parse_unsigned, parse_unsigned-bound}
use api_starter.Env.{
  Error, missing, invalid, string, string_or, boolean, boolean_or, read_boolean, parsed, parsed_or,
}
use api_starter.Config.Settings.{parse_level, parse_environment}
use Prim.Native.String as Text

empty_text : (s : String) → is_empty_str s ≡ true → s ≡ ""
empty_text Text.[] h = refl
empty_text (Text.◌∷◌ c s) h = absurd (ground arith)

full_text : (s : String) → is_empty_str s ≡ false → s ≢ ""
full_text s h e =
    let k : is_empty_str "" ≡ false = subst (λ x. is_empty_str x ≡ false) e h in
    absurd (ground arith)

module _ (var : String → Option String) where
  -- A variable that is not set, or to white space only.
  abbrev pub Blank : String → Type 0
  Blank key = (var key ≡ none) ⊎ ((value : String) × (var key ≡ some value) × (trim value ≡ ""))

  -- A variable that is set to a text, but for the white space around it.
  abbrev pub Says : String → String → Type 0
  Says key text = (value : String) × (var key ≡ some value) × (trim value ≡ text) × (text ≢ "")

  -- A setting is its default where the variable is blank, and what the text reads as otherwise.
  abbrev pub Given : {T : Type 0} → (String → Option T) → String → T → T → Type 0
  Given parse key fallback v =
      (Blank key × (v ≡ fallback)) ⊎ ((text : String) × Says key text × (parse text ≡ some v))

  abbrev reads : {T : Type 0} → Option T → Bool
  reads none = false
  reads (some v) = true

  -- Whether a text is one that the setting of a variable can have.
  abbrev pub readable : String → String → Bool
  readable key text =
      if key == "APP_PORT" || key == "DB_PORT" || key == "MAIL_PORT"
      then reads (parse_unsigned 65535 text)
      else if key == "DB_MAX_CONNECTIONS"
      then reads (parse_unsigned 4294967295 text)
      else if key == "DB_RUN_MIGRATIONS"
      then reads (read_boolean var text)
      else if key == "LOGGER_LEVEL"
      then reads (parse_level text)
      else if key == "APP_ENVIRONMENT"
      then reads (parse_environment text)
      else if key == "AUTHENTICATION_ACCESS_TOKEN_TTL_SECONDS"
          || key == "AUTHENTICATION_REFRESH_TOKEN_TTL_SECONDS"
      then reads (parse_i64 text)
      else true

  -- Texts that the parser of a setting refuses are not readable.
  abbrev pub Refusing : {T : Type 0} → (String → Option T) → String → Type 0
  Refusing parse key = (text : String) → parse text ≡ none → readable key text ≡ false

  -- An error names the secret, which is blank, or a variable and a text that it is set to and that its
  -- setting cannot have.
  abbrev pub Fault : Error → Type 0
  Fault (missing key) = (key ≡ "JWT_SECRET") × Blank key
  Fault (invalid key value) = Says key value × (readable key value ≡ false)

  abbrev pub Yields : {A : Type 0} → (A → Type 0) → Result Error A → Type 0
  Yields P (ok a) = P a
  Yields P (err e) = Fault e

  pub Yields-bind :
      {A B : Type 0} (P : A → Type 0) (Q : B → Type 0) (r : Result Error A) (k : A → Result Error B)
      → Yields P r
      → ((a : A) → P a → Yields Q (k a))
      → Yields Q (r >>= k)
  Yields-bind P Q (ok a) k h go = go a h
  Yields-bind P Q (err e) k h go = h

  pub Yields-map_ok :
      {A B : Type 0} (P : A → Type 0) (Q : B → Type 0) (f : A → B) (r : Result Error A)
      → Yields P r
      → ((a : A) → P a → Q (f a))
      → Yields Q (map_ok f r)
  Yields-map_ok P Q f (ok a) h go = go a h
  Yields-map_ok P Q f (err e) h go = h

  pub string-cases :
      (key : String)
      → ((string var key ≡ none) × Blank key)
        ⊎ ((text : String) × (string var key ≡ some text) × Says key text)
  unfolding string
  string-cases key = elim (Option-cases (var key)) [
    | inl e ↦ inl (rw e refl, inl e)
    | inr (value, e) ↦ elim (Bool-cases (is_empty_str (trim value))) [
      | inl k ↦ inl (rw (e, k) refl, inr (value, e, empty_text (trim value) k))
      | inr k ↦ inr (trim value, rw (e, k) refl, (value, e, refl, full_text (trim value) k))
    ]
  ]

  pub string_or-Given :
      (key fallback : String) → Given some key fallback (string_or var key fallback)
  unfolding string_or
  string_or-Given key fallback = elim (string-cases key) [
    | inl (e, blank) ↦ inl (blank, rw e refl)
    | inr (text, e, says) ↦ inr (text, says, rw e refl)
  ]

  pub parsed_or-Given :
      {T : Type 0} (parse : String → Option T) (key : String) (fallback : T)
      → Refusing parse key
      → Yields (Given parse key fallback) (parsed_or var parse key fallback)
  unfolding parsed_or parsed
  parsed_or-Given parse key fallback refusing = elim (string-cases key) [
    | inl (e, blank) ↦ rw (e, parsed) (inl (blank, refl))
    | inr (text, e, says) ↦ elim (Option-cases (parse text)) [
      | inl n ↦ rw (e, parsed, n) (says, refusing text n)
      | inr (v, k) ↦ rw (e, parsed, k) (inr (text, says, k))
    ]
  ]

  -- A number is also within the range of its type.
  abbrev pub Number : ℕ → String → ℕ → ℕ → Type 0
  Number limit key fallback n = Given (parse_unsigned limit) key fallback n × (n ≤ limit)

  bounded :
      (limit : ℕ) (key : String) (fallback n : ℕ)
      → fallback ≤ limit
      → Given (parse_unsigned limit) key fallback n
      → n ≤ limit
  bounded limit key fallback n h (inl (blank, e)) = omega (e, h, arith)
  bounded limit key fallback n h (inr (text, says, e)) = parse_unsigned-bound limit text e

  pub number :
      (limit : ℕ) (key : String) (fallback : ℕ)
      → fallback ≤ limit
      → Refusing (parse_unsigned limit) key
      → Yields (Number limit key fallback) (parsed_or var (parse_unsigned limit) key fallback)
  number limit key fallback h refusing = subst (Yields (Number limit key fallback)) (map_ok_id _) (
      Yields-map_ok (Given (parse_unsigned limit) key fallback) (Number limit key fallback) (λ n. n)
        _ (parsed_or-Given (parse_unsigned limit) key fallback refusing)
        (λ n given. (given, bounded limit key fallback n h given)))
    where
      map_ok_id : {E A : Type 0} (r : Result E A) → map_ok (λ a. a) r ≡ r
      map_ok_id (ok a) = refl
      map_ok_id (err e) = refl

  pub boolean_or-Given :
      (key : String) (fallback : Bool)
      → Refusing (read_boolean var) key
      → Yields (Given (read_boolean var) key fallback) (boolean_or var key fallback)
  unfolding boolean_or boolean parsed_or
  boolean_or-Given key fallback refusing = parsed_or-Given (read_boolean var) key fallback refusing
