-- ===== src/Response.antt =====
-- src/package/response.rs: the envelope of every response. The values stand where the source has
-- their JSON text.
use api_starter.Base.{String, Option, none, some, List}
use api_starter.Base.Int.{ℤ}
use api_starter.Base.Dict.{Dict}

-- `response::Error`; `errors` holds the violations by field.
pub record ErrorBody : Type 0 where
  pub code : ℤ
  pub message : String
  pub errors : Option (Dict (List String))

-- `Response<T>`, with a second parameter for what is paginated.
pub record Response (T P : Type 0) : Type 0 where
  pub data_of : Option T
  pub pagination : Option P
  pub error : Option ErrorBody

module _ {T P : Type 0} where
  -- `Response::data`
  abbrev pub of_data : T → Response T P
  of_data d = record { data_of = some d; pagination = none; error = none }

  -- `Response::paginated`
  abbrev pub paginated : T → P → Response T P
  paginated d p = record { data_of = some d; pagination = some p; error = none }

  -- `Response::error`
  abbrev pub of_error : ErrorBody → Response T P
  of_error e = record { data_of = none; pagination = none; error = some e }
