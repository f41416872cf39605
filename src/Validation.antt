-- ===== src/Validation.antt =====
-- src/package/validation.rs: the password rules and the flattening of validator output.
pub mod Passwords
pub mod Violations
use api_starter.Base.{
  ℕ, zero, suc, String, ◌<>◌, Char, Bool, true, false, not, ◌&&◌, Option, none, some, List, [], ◌∷◌,
  Result, ok, err, leb, ltb, if◌then◌else◌, ◌==◌, code, nat_eq, unwrap_or,
}
use api_starter.Base.Text.{chars_count, any_char, is_empty_str, trim_matches}
use api_starter.Base.Chars.{CharTables, is_whitespace, is_ascii_digit}
use api_starter.Base.Dict
use api_starter.Base.Dict.{Dict}
use api_starter.Base.Decimal.{show_ℕ}
use api_starter.Errdef.{Error, invalid, push_violation}

-- `validator::ValidationError`: its code, the message set in an attribute, and its parameters as
-- JSON text.
pub record FieldError : Type 0 where
  pub code : String
  pub message : Option String
  pub params : Dict String

-- `FieldError::new`
abbrev pub field_error : String → FieldError
field_error code = record { code = code; message = none; params = [] }

module _ (tables : CharTables) where
  abbrev pub is_special : Char → Bool
  is_special c = not (tables.is_alphanumeric c) && not (is_whitespace c)

  unfoldable pub strong_password : String → Result FieldError (Unit {0})
  strong_password password =
      let has_min_len = leb 8 (chars_count password) in
      let has_upper = any_char tables.is_uppercase password in
      let has_lower = any_char tables.is_lowercase password in
      let has_number = any_char is_ascii_digit password in
      let has_special = any_char is_special password in
      if has_min_len && has_upper && has_lower && has_number && has_special
      then ok tt
      else err (field_error "strong-pwd")

  unfoldable pub password_checker : String → Result String (Unit {0})
  password_checker password =
      if ltb (chars_count password) 8
      then err "password is too short. It should be at least 8 characters long"
      else if not (any_char tables.is_uppercase password)
      then err "password should contain at least one uppercase letter"
      else if not (any_char tables.is_lowercase password)
      then err "password should contain at least one lowercase letter"
      else if not (any_char is_ascii_digit password)
      then err "password should contain at least one digit"
      else if not (any_char is_special password)
      then err "password should contain at least one special character"
      else ok tt

-- `ValidationErrors`: the entries by field, in the order in which the map is walked. An entry holds
-- the errors of a field, those of a nested struct, or those of the elements of a list.
mutual
  pub data ValidationErrors : Type 0 where
    done : ValidationErrors
    entry : String → ErrorsKind → ValidationErrors → ValidationErrors

  pub data ErrorsKind : Type 0 where
    field : List FieldError → ErrorsKind
    struct : ValidationErrors → ErrorsKind
    list : Elements → ErrorsKind

  pub data Elements : Type 0 where
    end : Elements
    element : ℕ → ValidationErrors → Elements → Elements

-- The closure `param`.
abbrev param : FieldError → String → String
param e key = elim (Dict.lookup key e.params) [ none ↦ "" | some text ↦ trim_matches b'"' text ]

unfoldable pub message_for : FieldError → String
message_for e =
    if e.code == "required"
    then "field is required and cannot be empty"
    else if e.code == "email"
    then "field must be of email format"
    else if e.code == "length"
    then "field must be a minimum length of " <> param e "min"
    else if e.code == "url"
    then "filed must be of URI format"
    else if e.code == "range"
    then "field is outside of the accepted range"
    else if e.code == "strong-pwd"
    then "field requires at least 8 characters with an uppercase letter, a symbol and a numeric value."
    else "invalid value for field"

abbrev pub path_of : String → String → String
path_of prefix name = if is_empty_str prefix then name else prefix <> "." <> name

unfoldable pub push_all : String → List FieldError → Error → Error
push_all path [] target = target
push_all path (e ∷ es) target = push_all path es (push_violation target path (message_for e))

unfoldable mutual
  pub collect : ValidationErrors → String → Error → Error
  collect done prefix target = target
  collect (entry name kind rest) prefix target =
      collect rest prefix (collect_kind kind (path_of prefix name) target)

  pub collect_kind : ErrorsKind → String → Error → Error
  collect_kind (field es) path target = push_all path es target
  collect_kind (struct nested) path target = collect nested path target
  collect_kind (list items) path target = collect_elements items path target

  pub collect_elements : Elements → String → Error → Error
  collect_elements end path target = target
  collect_elements (element index nested rest) path target =
      collect_elements rest path (collect nested (path <> "." <> show_ℕ index) target)

unfoldable pub to_error : ValidationErrors → Error
unfolding collect
to_error errors = collect errors "" (invalid "failed payload validation")
