-- ===== src/Server/Documented.antt =====
-- src/server/openapi.yaml: the operations that it describes, which of them want a bearer token, and the
-- table of error codes in its introduction.
use api_starter.Base.{
  ℕ, String, ◌≡◌, refl, Bool, true, false, not, ◌&&◌, ◌||◌, ◌==◌, List, [], ◌∷◌, any, All, arith,
  some,
}
use mathlib.Core.Option
use api_starter.Base.Int.{pos, int_eq}
use api_starter.Errdef.{Error, app, validation}
use api_starter.Errdef.Code
use api_starter.Errdef.Laws.{is_validation, code_of}
use api_starter.Errdef.Render.{into_response}
use api_starter.Server.Access.{Refuses, wrapped-Refuses}
use api_starter.Server.Routes
use api_starter.Server.Routes.{
  Method, Layer, Mounted, same_method, get, post, patch, delete, mounted, wrapped, mount,
  iam_routes, auth_routes, docs_routes, health_routes, user_routes, permission_routes,
}
use api_starter.Server.Endpoints.{App, Draws}

-- An operation under `paths`; `secured` is false where it has `security: []`, and true where that of the
-- whole document, `bearerAuth`, stands.
pub record Operation : Type 0 where
  pub path : String
  pub method : Method
  pub secured : Bool

abbrev operation : String → Method → Bool → Operation
operation path method secured = record { path = path; method = method; secured = secured }

unfoldable pub documented : List Operation
documented =
    operation "/v1/healthcheck" get false
    ∷ operation "/v1/login" post false
    ∷ operation "/v1/refresh-token" post false
    ∷ operation "/v1/forgot-password" post false
    ∷ operation "/v1/reset-password" post false
    ∷ operation "/v1/users" get true
    ∷ operation "/v1/users" post true
    ∷ operation "/v1/users/my-user" get true
    ∷ operation "/v1/users/my-user" patch true
    ∷ operation "/v1/users/{user-id}" get true
    ∷ operation "/v1/users/{user-id}" patch true
    ∷ operation "/v1/users/{user-id}" delete true
    ∷ operation "/v1/permissions" get true
    ∷ []

-- The rows of `error.code` and its status.
unfoldable pub documented_codes : List (ℕ × ℕ)
documented_codes =
    (1000, 422)
    ∷ (1001, 404)
    ∷ (1002, 401)
    ∷ (1003, 400)
    ∷ (1004, 409)
    ∷ (1005, 422)
    ∷ (1006, 403)
    ∷ (2000, 500)
    ∷ []

abbrev pub is_authenticate : Layer → Bool
is_authenticate Routes.authenticate = true
is_authenticate (Routes.rbac_guard action) = false

never {ℓ} : {A : Type ℓ} → ◌≡◌ {A = Bool} false true → A
never h = absurd (ground arith)

-- A route and an operation have one path and one method.
abbrev pub same_place : Mounted → Operation → Bool
same_place m o = m.path == o.path && same_method m.method o.method

-- And the one has the layer that asks for a token where the other says so.
abbrev pub describes : Mounted → Operation → Bool
describes m o =
    same_place m o
    && ((o.secured && any is_authenticate m.layers)
        || (not o.secured && not (any is_authenticate m.layers)))

-- The two pages of the documentation itself.
abbrev pub is_page : Mounted → Bool
is_page m = m.path == "/docs" || m.path == "/openapi.yaml"

module _ {B : Type 0} (app : App B) (draws : Draws) where
  -- A route that is described as secured wants a token.
  abbrev pub KeepsPromise : Mounted → Type 0
  KeepsPromise m = any (λ o. same_place m o && o.secured) documented ≡ true → Refuses app draws m

  -- Every route but the two pages of the documentation is described there, with its path and its method,
  -- and as one that wants a bearer token exactly if it stands behind `authenticate`; every operation
  -- that is described has such a route; and a route that is described as secured answers a request
  -- without a bearer token `unauthorized` and does nothing else.
  pub documented_lem :
      All (λ m. (is_page m || any (describes m) documented) ≡ true) (mounted mount)
      × All (λ o. any (λ m. describes m o) (mounted mount) ≡ true) documented
      × All KeepsPromise (mounted mount)
  unfolding mount iam_routes auth_routes docs_routes health_routes user_routes permission_routes
      mounted documented
  documented_lem = (
    (
      refl,
      (
        refl,
        (
          refl,
          (
            refl,
            (
              refl,
              (refl, (refl, (refl, (refl, (refl, (refl, (refl, (refl, (refl, (refl, tt)))))))))),
            ),
          ),
        ),
      ),
    ),
    (
      refl,
      (
        refl,
        (refl, (refl, (refl, (refl, (refl, (refl, (refl, (refl, (refl, (refl, (refl, tt))))))))))),
      ),
    ),
    (
      λ h. never h,
      (
        λ h. never h,
        (
          λ h. never h,
          (
            λ h. never h,
            (
              λ h. never h,
              (
                λ h. never h,
                (
                  λ h. never h,
                  (
                    λ h. wrapped-Refuses app draws _,
                    (
                      λ h. wrapped-Refuses app draws _,
                      (
                        λ h. wrapped-Refuses app draws _,
                        (
                          λ h. wrapped-Refuses app draws _,
                          (
                            λ h. wrapped-Refuses app draws _,
                            (
                              λ h. wrapped-Refuses app draws _,
                              (
                                λ h. wrapped-Refuses app draws _,
                                (λ h. wrapped-Refuses app draws _, tt),
                              ),
                            ),
                          ),
                        ),
                      ),
                    ),
                  ),
                ),
              ),
            ),
          ),
        ),
      ),
    ),
  )

-- An error whose own code is 1000 is a validation error, as all constructors make it.
abbrev pub IsConstructed : Error → Type 0
IsConstructed e = (is_validation e || not (int_eq (code_of e) Code.validation_failed)) ≡ true

-- An error, if its code is 1000 only where it is a validation error, has the status that the document
-- gives for its own code; but the code in the body of the reply is none of the document's.
pub documented_codes_lem :
    (e : Error)
    → IsConstructed e
    → All
        (λ row.
          code_of e ≡ pos row.0 → (into_response {T = Unit {0}} {P = Unit {0}} e).status ≡ row.1)
        documented_codes
      × (Option.map
            (λ b. any (λ row. int_eq (pos row.0) b.code) documented_codes)
            (into_response {T = Unit {0}} {P = Unit {0}} e).body.error
          ≡ some false)
unfolding documented_codes into_response
documented_codes_lem (app e) h = ground arith
documented_codes_lem (validation e) h = ground arith
