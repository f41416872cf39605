-- ===== src/Tests/Requests.antt =====
-- Examples on requests, replies and settings.
use api_starter.Base.{
  ℕ, String, ◌≡◌, refl, ◌↔◌, ◌≢◌, Option, none, some, List, [], ◌∷◌, ok, err, arith, leb, ◌&&◌,
  if◌then◌else◌, ◌+◌, ◌*◌, ◌<◌, ◌≤◌,
}
use api_starter.Base.Int.{pos, pos_part}
use api_starter.Base.{◌==◌}
use api_starter.Errdef.Laws.{violations_of}
use api_starter.Pagination.{ListRequest, default_request, from_query, normalize, filter, new_meta}
use api_starter.Pagination.Requests.{IsNormal, from_query-IsNormal, filter-from_query}
use api_starter.Pagination.Windows.{first_pages, first_pages_total}
use api_starter.Pagination.Pages.{new_meta_links}
use api_starter.Validation.{
  ValidationErrors, FieldError, field_error, strong_password, password_checker, to_error,
}
use api_starter.Validation
use api_starter.Validation.Passwords.{password_policies_agree, first_failure, rules}
use api_starter.Validation.Violations.{violations_of-to_error, messages_at, flatten}
use api_starter.Tests.Fixtures.{tables}

abbrev decode : String → Option (List (String × String))
decode query = some (("page", "-3") ∷ ("per_page", "500") ∷ ("role", "Admin") ∷ [])

from_query-IsNormal_example :
    IsNormal (from_query decode "page=-3&per_page=500&role=Admin")
    × (normalize (from_query decode "page=-3&per_page=500&role=Admin")
        ≡ from_query decode "page=-3&per_page=500&role=Admin")
from_query-IsNormal_example = from_query-IsNormal decode "page=-3&per_page=500&role=Admin"

filter-from_query_example :
    filter (from_query decode "page=-3&per_page=500&role=Admin") "role" ≡ some "Admin"
filter-from_query_example =
    filter-from_query decode "page=-3&per_page=500&role=Admin" "role"
      (("page", "-3") ∷ ("per_page", "500") ∷ ("role", "Admin") ∷ []) refl refl

abbrev third_page : ListRequest
third_page = record default_request { page = pos 3 }

first_pages_total_example :
    first_pages {T = String}
      ("a" ∷ "b" ∷ "c" ∷ [])
      (record default_request { per_page = pos 2 })
      (pos_part (new_meta (pos 3) (pos 1) (pos 2)).total_pages)
    ≡ "a" ∷ "b" ∷ "c" ∷ []
first_pages_total_example =
    first_pages_total {T = String} ("a" ∷ "b" ∷ "c" ∷ [])
      (record default_request { per_page = pos 2 }) (pos 1) 2 refl (omega arith) (omega arith)

new_meta_links_example :
    let m = new_meta (pos 25) (pos 2) (pos 10) in
    (k : ℕ) × (m.total_pages ≡ pos k)
    × (25 ≤ k * 10)
    × (k * 10 < 25 + 10)
    × (m.next_page ≡ (if leb 3 k then some (pos 3) else none))
    × (m.previous_page ≡ (if leb 1 1 && leb 1 k then some (pos 1) else none))
new_meta_links_example = new_meta_links 25 1 10 (omega arith) (omega arith) (omega arith)

password_policies_agree_example :
    (password_checker tables "short" ≡ first_failure (rules tables "short"))
    × ((strong_password tables "short" ≡ ok tt) ↔ (password_checker tables "short" ≡ ok tt))
    × ((strong_password tables "short" ≡ err (field_error "strong-pwd"))
        ↔ (strong_password tables "short" ≢ ok tt))
password_policies_agree_example = password_policies_agree tables "short"

abbrev output : ValidationErrors
output = Validation.entry "email" (Validation.field (field_error "email" ∷ [])) Validation.done

violations_of-to_error_example :
    violations_of (to_error output) "email" ≡ messages_at "email" (flatten output "")
violations_of-to_error_example = violations_of-to_error output "email"

abbrev environment : String → Option String
environment key =
    if key == "APP_PORT"
    then some " 8080 "
    else if key == "ORIGINS"
    then some " http://a.test , ,http://b.test "
    else none
