-- ===== src/Config/Dsn.antt =====
-- The connection string: where its parts end.
use api_starter.Base.{
  String, ◌<>◌, ◌≡◌, refl, Char, code, Bool, true, not, ◌&&◌, ◌||◌, nat_eq, arith, if_cases,
}
use api_starter.Base.Text.{all_char}
use api_starter.Config.{encode, encode_char}
use Prim.Native.String.{[], ◌∷◌}
use text.Mathlib.TextLemmas.{nil-append, cons-append}

-- A character that separates the parts of a connection string.
abbrev pub is_separator : Char → Bool
is_separator c =
    nat_eq (code c) b'@'
    || nat_eq (code c) b':'
    || nat_eq (code c) b'/'
    || nat_eq (code c) b'?'
    || nat_eq (code c) b'#'
    || nat_eq (code c) b'['
    || nat_eq (code c) b']'

abbrev pub has_no_separator : String → Bool
has_no_separator s = all_char (λ c. not (is_separator c)) s

all_char-append :
    (p : Char → Bool) (s t : String) → all_char p (s <> t) ≡ (all_char p s && all_char p t)
all_char-append p [] t = rw (nil-append t) refl
all_char-append p (c ∷ s) t = rw (cons-append c s t) (ground (arith, all_char-append p s t))

encode_char_clean : (c : Char) → has_no_separator (encode_char c) ≡ true
unfolding encode_char
encode_char_clean c =
    if_cases Clean (nat_eq (code c) b'@') (λ e. refl)
      λ n0.
        if_cases Clean (nat_eq (code c) b':') (λ e. refl)
          λ n1.
            if_cases Clean (nat_eq (code c) b'/') (λ e. refl)
              λ n2.
                if_cases Clean (nat_eq (code c) b'?') (λ e. refl)
                  λ n3.
                    if_cases Clean (nat_eq (code c) b'#') (λ e. refl)
                      λ n4.
                        if_cases Clean (nat_eq (code c) b'[') (λ e. refl)
                          λ n5.
                            if_cases Clean (nat_eq (code c) b']') (λ e. refl)
                              λ n6. rw (n0, n1, n2, n3, n4, n5, n6) refl
  where
    Clean : String → Type 0
    Clean s = has_no_separator s ≡ true

-- Whatever a user name or a password holds, its encoded form has none of the characters that
-- separate the parts of a connection string.
pub has_no_separator-encode : (s : String) → has_no_separator (encode s) ≡ true
unfolding encode
has_no_separator-encode [] = refl
has_no_separator-encode (c ∷ s) =
    rw
      (
        all_char-append (λ x. not (is_separator x)) (encode_char c) (encode s),
        encode_char_clean c,
        has_no_separator-encode s,
      )
      refl
