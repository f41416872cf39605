-- ===== src/Errdef/Render.antt =====
-- src/package/errdef.rs: `status_for`, `Display` and `IntoResponse`.
use api_starter.Base.{ℕ, String, ◌<>◌, none, some, if◌then◌else◌}
use api_starter.Base.Int.{ℤ, pos, int_eq}
use api_starter.Base.Decimal.{show_ℤ}
use api_starter.Errdef.Code
use api_starter.Errdef.{Error, app, validation}
use api_starter.Response.{Response, of_error}

unfoldable pub status_for : ℤ → ℕ
status_for code =
    if int_eq code Code.not_found
    then 404
    else if int_eq code Code.unauthorized
    then 401
    else if int_eq code Code.bad_request
    then 400
    else if int_eq code Code.resource_conflict
    then 409
    else if int_eq code Code.unprocessable
    then 422
    else if int_eq code Code.forbidden
    then 403
    else if int_eq code Code.unknown
    then 500
    else 400

-- `Display`, which is logged.
unfoldable pub to_string : Error → String
to_string (app e) = elim e.cause [
  | some cause ↦ "code " <> show_ℤ e.code <> ": " <> e.message <> " (cause: " <> cause <> ")"
  | none ↦ "code " <> show_ℤ e.code <> ": " <> e.message
]
to_string (validation e) = "code " <> show_ℤ Code.validation_failed <> ": " <> e.message

-- The status line and the envelope that a request is answered with.
pub record Reply (T P : Type 0) : Type 0 where
  pub status : ℕ
  pub body : Response T P

module _ {T P : Type 0} where
  unfoldable pub into_response : Error → Reply T P
  unfolding status_for
  into_response (validation e) = record {
    status = 422;
    body =
        of_error (record { code = pos 422; message = e.message; errors = some e.field_violations });
  }
  into_response (app e) =
      let status = status_for e.code in
      record {
        status = status;
        body = of_error (record { code = pos status; message = e.message; errors = none });
      }
