-- ===== src/Tests/Unit/Errors.antt =====
-- The tests of src/package/errdef.rs. A body is compared as the envelope, where the source compares its
-- JSON text.
use api_starter.Base.Decimal.{show_ℤ}
use api_starter.Base.{◌≡◌, refl, some, none, [], ◌∷◌, length}
use api_starter.Base.Int.{pos}
use api_starter.Base.Dict
use api_starter.Errdef.{
  Error, not_found, invalid, add_violation, push_violation, unknown, unauthorized, bad_request,
  with_cause,
}
use api_starter.Errdef.Code
use api_starter.Errdef.Laws.{violations_of}
use api_starter.Errdef.Render.{Reply, status_for, to_string, into_response}
use api_starter.Response.{ErrorBody, of_error}

abbrev render : Error → Reply (Unit {0}) (Unit {0})
render error = into_response error

abbrev MapsEveryDomainCodeToAStatus : Type 0
MapsEveryDomainCodeToAStatus =
    (status_for Code.not_found ≡ 404)
    × (status_for Code.unauthorized ≡ 401)
    × (status_for Code.bad_request ≡ 400)
    × (status_for Code.resource_conflict ≡ 409)
    × (status_for Code.unprocessable ≡ 422)
    × (status_for Code.forbidden ≡ 403)
    × (status_for Code.unknown ≡ 500)
    × (status_for (pos 4242) ≡ 400)

maps_every_domain_code_to_a_status : MapsEveryDomainCodeToAStatus
unfolding status_for
maps_every_domain_code_to_a_status = (refl, refl, refl, refl, refl, refl, refl, refl)

abbrev RendersAnAppErrorInTheSharedEnvelope : Type 0
RendersAnAppErrorInTheSharedEnvelope =
    let reply = render (not_found "user does not exists") in
    (reply.status ≡ 404)
    × (reply.body.data_of ≡ none)
    × (reply.body.error
        ≡ some (record { code = pos 404; message = "user does not exists"; errors = none }))

renders_an_app_error_in_the_shared_envelope : RendersAnAppErrorInTheSharedEnvelope
unfolding into_response
renders_an_app_error_in_the_shared_envelope = (refl, refl, refl)

abbrev RendersFieldViolationsOnAValidationError : Type 0
RendersFieldViolationsOnAValidationError =
    let error =
      add_violation
        (add_violation
          (add_violation (invalid "failed payload validation") "email"
            "field must be of email format")
          "password" "field is required and cannot be empty")
        "password" "field is too short" in
    let reply = render error in
    (reply.status ≡ 422)
    × (body : ErrorBody) × (reply.body.error ≡ some body)
    × (body.code ≡ pos 422)
    × (violations_of error "email" ≡ "field must be of email format" ∷ [])
    × (length (violations_of error "password") ≡ 2)

renders_field_violations_on_a_validation_error : RendersFieldViolationsOnAValidationError
unfolding into_response push_violation Dict.lookup Dict.push
renders_field_violations_on_a_validation_error = (refl, _, refl, refl, refl, refl)

abbrev NeverLeaksTheCauseOfAnUnknownError : Type 0
NeverLeaksTheCauseOfAnUnknownError =
    let reply = render (unknown "connection refused to 10.0.0.1:5432") in
    (reply.status ≡ 500)
    × (reply.body
        ≡ of_error (record { code = pos 500; message = "internal server error"; errors = none }))

never_leaks_the_cause_of_an_unknown_error : NeverLeaksTheCauseOfAnUnknownError
unfolding into_response
never_leaks_the_cause_of_an_unknown_error = (refl, refl)

abbrev KeepsTheCauseOnTheLogRepresentation : Type 0
KeepsTheCauseOnTheLogRepresentation =
    to_string (with_cause (unauthorized "invalid token") "signature mismatch")
    ≡ "code 1002: invalid token (cause: signature mismatch)"

keeps_the_cause_on_the_log_representation : KeepsTheCauseOnTheLogRepresentation
unfolding to_string with_cause show_ℤ
keeps_the_cause_on_the_log_representation = refl

abbrev AddingAViolationToAnAppErrorIsANoOp : Type 0
AddingAViolationToAnAppErrorIsANoOp =
    add_violation (bad_request "nope") "field" "message" ≡ bad_request "nope"

adding_a_violation_to_an_app_error_is_a_no_op : AddingAViolationToAnAppErrorIsANoOp
unfolding push_violation
adding_a_violation_to_an_app_error_is_a_no_op = refl
