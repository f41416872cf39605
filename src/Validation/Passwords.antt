-- ===== src/Validation/Passwords.antt =====
-- The two password policies, one rule at a time.
use api_starter.Base.{
  String, Bool, true, false, ◌≡◌, ◌↔◌, List, [], ◌∷◌, ◌≢◌, Result, ok, err, leb, arith,
}
use api_starter.Base.Text.{chars_count, any_char}
use api_starter.Base.Chars.{CharTables, is_ascii_digit}
use api_starter.Validation.{strong_password, password_checker, is_special, field_error}

module _ (tables : CharTables) (password : String) where
  -- The rules, in the order in which they are reported: whether one holds, and its message.
  abbrev pub rules : List (Bool × String)
  rules =
      (
        leb 8 (chars_count password),
        "password is too short. It should be at least 8 characters long",
      )
      ∷ (
        any_char tables.is_uppercase password,
        "password should contain at least one uppercase letter",
      )
      ∷ (
        any_char tables.is_lowercase password,
        "password should contain at least one lowercase letter",
      )
      ∷ (any_char is_ascii_digit password, "password should contain at least one digit")
      ∷ (
        any_char (is_special tables) password,
        "password should contain at least one special character",
      )
      ∷ []

-- The message of the first rule that fails.
abbrev pub first_failure : List (Bool × String) → Result String (Unit {0})
first_failure [] = ok tt
first_failure ((true, message) ∷ rest) = first_failure rest
first_failure ((false, message) ∷ rest) = err message

-- The checker of an update reports the first of five rules that fails, and passes where all hold;
-- the validator of a request passes exactly the same passwords, and reports all failures alike.
pub password_policies_agree :
    (tables : CharTables) (password : String)
    → (password_checker tables password ≡ first_failure (rules tables password))
      × ((strong_password tables password ≡ ok tt) ↔ (password_checker tables password ≡ ok tt))
      × ((strong_password tables password ≡ err (field_error "strong-pwd"))
          ↔ (strong_password tables password ≢ ok tt))
unfolding strong_password password_checker
password_policies_agree tables password = (ground arith, ground arith, ground arith)
