-- ===== src/Tests/Unit/Packages.antt =====
-- The tests of src/package/pagination.rs, src/package/emailer/mod.rs and src/database/migrations.rs
-- that need no foreign code but the reading of a query string: it stands as the pairs that
-- serde_urlencoded reads from it.
use api_starter.Base.Decimal.{parse_i64}
use api_starter.Base.{
  ℕ, String, ◌≡◌, refl, none, some, Option, List, [], ◌∷◌, err, ◌==◌, if◌then◌else◌,
}
use api_starter.Base.Dict
use api_starter.Base.Int.{pos, wrap, ◌+ℤ◌, ◌-ℤ◌}
use api_starter.Pagination.{
  Page, from_query, filter, new_page, default_per_page, total_pages_of, next_of, previous_of,
  read_pairs, read_pair,
}
use api_starter.Emailer.{EmailerError, render}
use api_starter.Migrations.{ModuleMigrations, find_module, names, all}

-- The two queries of the tests.
abbrev read : String → Option (List (String × String))
read query =
    if query == "page=0&per_page=500&order=sideways"
    then some (("page", "0") ∷ ("per_page", "500") ∷ ("order", "sideways") ∷ [])
    else if query == "page=2&status=Active&role=Admin"
    then some (("page", "2") ∷ ("status", "Active") ∷ ("role", "Admin") ∷ [])
    else none

abbrev ClampsOutOfRangePagination : Type 0
ClampsOutOfRangePagination =
    let request = from_query read "page=0&per_page=500&order=sideways" in
    (request.page ≡ pos 1) × (request.per_page ≡ default_per_page) × (request.order ≡ "")

clamps_out_of_range_pagination : ClampsOutOfRangePagination
unfolding from_query read_pairs read_pair parse_i64
clamps_out_of_range_pagination = (refl, refl, refl)

abbrev CollectsUnknownQueryParamsAsFilters : Type 0
CollectsUnknownQueryParamsAsFilters =
    let request = from_query read "page=2&status=Active&role=Admin" in
    (request.page ≡ pos 2)
    × (filter request "status" ≡ some "Active")
    × (filter request "role" ≡ some "Admin")

collects_unknown_query_params_as_filters : CollectsUnknownQueryParamsAsFilters
unfolding from_query read_pairs read_pair parse_i64 filter Dict.lookup Dict.insert
collects_unknown_query_params_as_filters = (refl, refl, refl)

abbrev BuildsPageLinks : Type 0
BuildsPageLinks =
    let page : Page ℕ = new_page (1 ∷ 2 ∷ 3 ∷ []) (pos 25) (pos 2) (pos 10) in
    (page.meta.total_pages ≡ pos 3)
    × (page.meta.next_page ≡ some (pos 3))
    × (page.meta.previous_page ≡ some (pos 1))

builds_page_links : BuildsPageLinks
unfolding new_page total_pages_of wrap ◌+ℤ◌ next_of previous_of ◌-ℤ◌
builds_page_links = (refl, refl, refl)

-- Of any text of the one template.
abbrev ReportsAnUnknownTemplate : Type 0
ReportsAnUnknownTemplate =
    (password_reset : String) → (e : EmailerError) × (render password_reset "nope" [] ≡ err e)

reports_an_unknown_template : ReportsAnUnknownTemplate
unfolding render
reports_an_unknown_template password_reset = (_, refl)

abbrev FindsAModuleByName : Type 0
FindsAModuleByName =
    ((m : ModuleMigrations) × (find_module "iam" ≡ some m)) × (find_module "nope" ≡ none)

finds_a_module_by_name : FindsAModuleByName
unfolding find_module all
finds_a_module_by_name = ((_, refl), refl)

-- One name is registered, so none is twice.
abbrev EveryModuleIsRegisteredOnce : Type 0
EveryModuleIsRegisteredOnce = names ≡ "iam" ∷ []

every_module_is_registered_once : EveryModuleIsRegisteredOnce
unfolding names all
every_module_is_registered_once = refl
