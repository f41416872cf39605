-- ===== src/Errdef.antt =====
-- src/package/errdef.rs: the error type, its constructors and how it renders as HTTP.
pub mod Code
pub mod Render
pub mod Laws
use api_starter.Base.{String, Option, none, some, List, []}
use api_starter.Base.Int.{ℤ}
use api_starter.Base.Dict
use api_starter.Base.Dict.{Dict}
use Code

pub record AppError : Type 0 where
  pub code : ℤ
  pub message : String
  pub cause : Option String

pub record ValidationError : Type 0 where
  pub message : String
  pub field_violations : Dict (List String)

pub data Error : Type 0 where
  app : AppError → Error
  validation : ValidationError → Error

abbrev pub new : ℤ → String → Error
new code message = app (record { code = code; message = message; cause = none })

abbrev pub not_found : String → Error
not_found message = new Code.not_found message

abbrev pub unauthorized : String → Error
unauthorized message = new Code.unauthorized message

abbrev pub bad_request : String → Error
bad_request message = new Code.bad_request message

abbrev pub conflict : String → Error
conflict message = new Code.resource_conflict message

abbrev pub unprocessable : String → Error
unprocessable message = new Code.unprocessable message

abbrev pub forbidden : String → Error
forbidden message = new Code.forbidden message

-- The cause is a value's `Display` text.
abbrev pub unknown : String → Error
unknown cause =
    app (record { code = Code.unknown; message = "internal server error"; cause = some cause })

-- `Error::validation`
abbrev pub invalid : String → Error
invalid message = validation (record { message = message; field_violations = [] })

unfoldable pub with_cause : Error → String → Error
with_cause (app e) cause = app (record e { cause = some cause })
with_cause (validation e) cause = validation e

unfoldable pub push_violation : Error → String → String → Error
push_violation (app e) field message = app e
push_violation (validation e) field message =
    validation (record e { field_violations = Dict.push field message e.field_violations })

abbrev pub add_violation : Error → String → String → Error
add_violation = push_violation
