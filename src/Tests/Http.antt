-- ===== src/Tests/Http.antt =====
-- Examples on requests: extractors, routes and layers.
use api_starter.Base.{String, ◌≡◌, ◌⊎◌, ◌↔◌, refl, true, false, none, [], ok, err, All, arith, ◌==◌}
use api_starter.Base.Int.{pos}
use api_starter.Base.Text.{is_empty_str}
use api_starter.Database.Effect.{calm}
use api_starter.Iam.{no_update}
use api_starter.Extract.Payloads.{Formats, validate_login, validate_refresh}
use api_starter.Extract.Laws.{payloads_lem}
use api_starter.Server.{Request}
use api_starter.Server.Routes
use api_starter.Server.Routes.{mounted, mount, Mounted}
use api_starter.Server.Endpoints.{App, Draws, Decode}
use api_starter.Server.Access.{is_public, Refuses, mount-Refuses, Rejects, invalid_payloads-Rejects}
use api_starter.Server.SafeMethods.{over, should_read, Safe, mount-Safe}
use api_starter.Tests.Fixtures.{seeds, tables}
use api_starter.Tests.Lifetime.{server}

-- A body that is one text: each payload has it in its fields.
abbrev decode : Decode String
decode = record {
  login = λ text. ok (record { email = text; password = text });
  refresh = λ text. ok (record { token = text });
  recovery = λ text. ok (record { email = text; callback_uri = text });
  reset = λ text. ok (record { token = text; password = text });
  create_user = λ text. err "EOF while parsing a value";
  update_user = λ text. ok no_update;
  user_id = λ text. ok 1;
  query = λ text. none;
  urlencoded = λ text. none;
}

abbrev pub formats : Formats
formats = record { email = λ s. s == "admin@example.com"; url = λ s. s == "https://example.com/" }

abbrev pub app : App String
app = over server decode formats "Admin" "1.0" "openapi: 3.1.0" "<html>"

abbrev draws : Draws
draws = record { now = pos 0; random = []; salt = "salt"; fresh = 3 }

mount-Refuses_example :
    All (λ m. (is_public m.endpoint ≡ true) ⊎ Refuses app draws m) (mounted mount)
mount-Refuses_example = mount-Refuses app draws

mount-Safe_example :
    All
      (λ m.
        should_read m ≡ true → Safe server decode formats "Admin" "1.0" "openapi: 3.1.0" "<html>" m)
      (mounted mount)
mount-Safe_example = mount-Safe server decode formats "Admin" "1.0" "openapi: 3.1.0" "<html>"

-- A reset with an empty token.
abbrev empty_body : Request String
empty_body = record { authorization = none; user = none; rest = "" }

invalid_payloads-Rejects_example : Rejects app draws empty_body (calm seeds []) Routes.login
unfolding validate_login
invalid_payloads-Rejects_example =
    (invalid_payloads-Rejects app draws empty_body (calm seeds [])).0
      (record { email = ""; password = "" }) refl (λ e. absurd (ground arith))

payloads_lem_example :
    (validate_refresh (record { token = "t" }) ≡ ok tt) ↔ (is_empty_str "t" ≡ false)
payloads_lem_example = (payloads_lem formats tables).1 (record { token = "t" })
