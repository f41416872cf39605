-- ===== src/Base/Decimal.antt =====
-- Decimal text: `Display` of the integers, and `str::parse` into them.
use mathlib.Core.Path.{◌≡◌, refl}
use mathlib.Core.Logic.{inl, inr}
use native.Mathlib.Omega.{arith}
use Prim.Native.Nat.{ℕ, ◌≤◌, zero, suc, ◌+◌, ◌-◌, ◌*◌, ◌/◌, ◌%◌}
use Prim.Native.Char.{code}
use Prim.Native.String.{String, [], ◌∷◌, ◌++◌}
use mathlib.Core.Bool.{false, ◌&&◌}
use mathlib.Core.Option.{Option, none, some}
use api_starter.Base.Tests.{Bool-cases, ltb, leb, nat_eq, if◌then◌else◌}
use api_starter.Base.Int.{ℤ, pos, negsuc, neg_ℕ, leb_ℤ, i64_min, i64_max}
use api_starter.Base.Chars.{is_ascii_digit}

abbrev digit_text : ℕ → String
digit_text d =
    if nat_eq d 0
    then "0"
    else if nat_eq d 1
    then "1"
    else if nat_eq d 2
    then "2"
    else if nat_eq d 3
    then "3"
    else if nat_eq d 4
    then "4"
    else if nat_eq d 5
    then "5"
    else if nat_eq d 6
    then "6"
    else if nat_eq d 7
    then "7"
    else if nat_eq d 8
    then "8"
    else "9"

-- Each round divides the number by ten.
show_from : ℕ → ℕ → String
show_from zero n = digit_text (n % 10)
show_from (suc f) n =
    let rest = show_from f (n / 10) in
    if ltb n 10 then digit_text n else rest ++ digit_text (n % 10)

unfoldable pub show_ℕ : ℕ → String
unfolding show_from
show_ℕ n = show_from n n

tenth : {f n : ℕ} → n ≤ suc f → n / 10 ≤ f
tenth h = omega arith

-- Any two fuels of at least the number print the same.
show_from-fuel : (f g n : ℕ) → n ≤ f → n ≤ g → show_from f n ≡ show_from g n
unfolding show_from
show_from-fuel zero zero n a b = refl
show_from-fuel zero (suc g) n a b = let none_left : n ≡ 0 = omega arith in rw none_left refl
show_from-fuel (suc f) zero n a b = let none_left : n ≡ 0 = omega arith in rw none_left refl
show_from-fuel (suc f) (suc g) n a b = elim (Bool-cases (ltb n 10)) [
  | inl small ↦ rw small refl
  | inr large ↦ rw (large, show_from-fuel f g (n / 10) (tenth a) (tenth b)) refl
]

-- A number of several digits is printed as its tenth, with its last digit behind.
pub show_ℕ-digit : (n : ℕ) → ltb n 10 ≡ false → show_ℕ n ≡ show_ℕ (n / 10) ++ digit_text (n % 10)
unfolding show_ℕ show_from
show_ℕ-digit zero h = absurd (ground arith)
show_ℕ-digit (suc n) h =
    rw (h, show_from-fuel n (suc n / 10) (suc n / 10) (tenth (omega arith)) (omega arith)) refl

unfoldable pub show_ℤ : ℤ → String
unfolding show_ℕ
show_ℤ (pos n) = show_ℕ n
show_ℤ (negsuc n) = "-" ++ show_ℕ (suc n)

-- The digits from the left, onto the number read so far.
unfoldable pub parse_digits : ℕ → String → Option ℕ
unfolding is_ascii_digit
parse_digits acc [] = some acc
parse_digits acc (c ∷ s) =
    let rest = parse_digits (acc * 10 + (code c - b'0')) s in
    if is_ascii_digit c then rest else none

-- One digit at least.
unfoldable pub parse_number : String → Option ℕ
unfolding parse_digits
parse_number [] = none
parse_number (c ∷ s) = parse_digits 0 (c ∷ s)

-- A number with at most one sign in front, as `from_str` of the integers reads it. The width is
-- checked by the callers: a digit loop that stops at an overflow accepts the same texts.
unfoldable pub parse_signed : String → Option ℤ
unfolding parse_number
parse_signed [] = none
parse_signed (c ∷ s) =
    if nat_eq (code c) b'-'
    then elim (parse_number s) [ none ↦ none | some n ↦ some (neg_ℕ n) ]
    else elim (parse_number (if nat_eq (code c) b'+' then s else c ∷ s)) [
      | none ↦ none
      | some n ↦ some (pos n)
    ]

-- `parse::<u16>` and `parse::<u32>`: no minus sign, and a limit.
unfoldable pub parse_unsigned : ℕ → String → Option ℕ
unfolding parse_number
parse_unsigned limit [] = none
parse_unsigned limit (c ∷ s) = elim (parse_number (if nat_eq (code c) b'+' then s else c ∷ s)) [
  | none ↦ none
  | some n ↦ if leb n limit then some n else none
]

-- `parse::<i64>` and `parse::<i32>`: a number between the bounds.
unfoldable pub parse_between : ℤ → ℤ → String → Option ℤ
unfolding parse_signed
parse_between lo hi s = elim (parse_signed s) [
  | none ↦ none
  | some a ↦ if leb_ℤ lo a && leb_ℤ a hi then some a else none
]

unfoldable pub parse_i64 : String → Option ℤ
unfolding parse_between
parse_i64 s = parse_between i64_min i64_max s

unfoldable pub parse_i32 : String → Option ℤ
unfolding parse_between
parse_i32 s = parse_between (negsuc 2147483647) (pos 2147483647) s

-- A number that is read is within the limit.
pub parse_unsigned-bound :
    (limit : ℕ) (s : String) {n : ℕ} → parse_unsigned limit s ≡ some n → n ≤ limit
unfolding parse_unsigned
parse_unsigned-bound limit [] h = absurd (ground arith)
parse_unsigned-bound limit (c ∷ s) h =
    within limit (parse_number (if nat_eq (code c) b'+' then s else c ∷ s)) h
  where
    within :
        (limit : ℕ) (o : Option ℕ) {n : ℕ}
        → (elim o [ none ↦ none | some m ↦ if leb m limit then some m else none ]) ≡ some n
        → n ≤ limit
    within limit none h = absurd (ground arith)
    within limit (some m) h = ground arith
