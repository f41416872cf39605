-- ===== src/Tests/Unit/UserService.antt =====
-- The tests of src/module/iam/core/service/user.rs, with the repository that they are made with. Where
-- the source makes any id, it is 7.
use api_starter.Validation.{password_checker}
use api_starter.Base.{
  String, ◌≡◌, ◌==◌, refl, false, none, some, Option, List, [], ◌∷◌, Result, ok, err, find, nat_eq,
  is_empty,
}
use api_starter.Base.Dict
use api_starter.Base.Int.{ℤ, pos, wrap, ◌+ℤ◌, ◌-ℤ◌}
use api_starter.Database.Errors.{other}
use api_starter.Database.Effect.{World, Eff, ret, lift, calm}
use api_starter.Errdef.{Error, push_violation}
use api_starter.Errdef.Code
use api_starter.Errdef.Laws.{code_of, violations_of}
use api_starter.Iam.{
  User, UserRepository, UserService, DomainError, no_update, user_duplicate_constraint,
  status_not_found, department_not_found_constraint, database,
}
use api_starter.Iam.Service.{
  user_service, index, require_user, map_domain_error, partial_update, hash_update, delete,
}
use api_starter.Pagination.{Page, default_request, new_page, total_pages_of, next_of, previous_of}
use api_starter.Tests.Fixtures.{crypto, tables, seeds}

-- A step that must not be reached.
abbrev unreachable : {A : Type 0} → Eff DomainError A
unreachable = lift (err (database (other "unreachable")))

-- `FakeUserRepository`, but for the record of the requests that it has seen.
abbrev find_or_fail : Option DomainError → Option User → Result DomainError (Option User)
find_or_fail none found = ok found
find_or_fail (some error) found = err error

abbrev fake_users : List User → ℤ → Option DomainError → UserRepository
fake_users users total find_error = record {
  index = λ request. ret (users, total);
  create = λ fresh tx user. unreachable;
  find_by_id = λ user_id. lift (find_or_fail find_error (find (λ u. nat_eq u.id user_id) users));
  find_by_user_name = λ user_name. ret (find (λ u. u.user_name == user_name) users);
  find_by_email = λ address. ret (find (λ u. u.email == address) users);
  add_user_roles = λ tx user_id roles. unreachable;
  remove_user_roles = λ tx user_id roles. unreachable;
  partial_update = λ tx user_id fields. unreachable;
  delete = λ tx user_id. unreachable;
}

abbrev a_user : User
a_user = record {
  id = 7;
  user_name = "admin";
  avatar_id = "";
  email = "admin@example.com";
  password = "hashed";
  first_name = "App";
  last_name = "Admin";
  status = record { id = pos 1; status = "Active" };
  department = record {
    id = pos 1;
    name = "Administration";
    company = record { id = pos 1; name = "Example Company Ltd" };
  };
  roles = record { role_id = pos 1; name = "Admin" } ∷ [];
}

abbrev service_of : UserRepository → UserService
service_of = user_service tables crypto

abbrev with_users : List User → UserService
with_users users = service_of (fake_users users (pos 1) none)

abbrev failing : DomainError → UserService
failing error = service_of (fake_users [] (pos 0) (some error))

abbrev quiet : World
quiet = calm seeds []

-- `expect_err`, with what is asserted of the error.
abbrev FailsAs : {A : Type 0} → (Error → Type 0) → Result Error A × World → Type 0
FailsAs P out = (e : Error) × (out ≡ (err e, quiet)) × P e

abbrev HasViolation : String → Error → Type 0
HasViolation field e = is_empty (violations_of e field) ≡ false

abbrev IndexWrapsTheRowsInPaginationMetadata : Type 0
IndexWrapsTheRowsInPaginationMetadata =
    let request = record default_request { page = pos 2; per_page = pos 10 } in
    (page : Page User) × (((service_of (fake_users (a_user ∷ []) (pos 25) none)).index request
        quiet).0
      ≡ ok page)
    × (page.meta.total_count ≡ pos 25)
    × (page.meta.total_pages ≡ pos 3)
    × (page.meta.current_page ≡ pos 2)
    × (page.meta.next_page ≡ some (pos 3))
    × (page.meta.previous_page ≡ some (pos 1))

index_wraps_the_rows_in_pagination_metadata : IndexWrapsTheRowsInPaginationMetadata
unfolding user_service index new_page total_pages_of wrap ◌+ℤ◌ next_of previous_of ◌-ℤ◌
index_wraps_the_rows_in_pagination_metadata = (_, refl, refl, refl, refl, refl, refl)

abbrev FindByIdReturnsTheUser : Type 0
FindByIdReturnsTheUser = ((with_users (a_user ∷ [])).find_by_id 7 quiet).0 ≡ ok a_user

find_by_id_returns_the_user : FindByIdReturnsTheUser
unfolding user_service require_user
find_by_id_returns_the_user = refl

abbrev FindByIdReportsAMissingUserAsNotFound : Type 0
FindByIdReportsAMissingUserAsNotFound =
    FailsAs (λ e. code_of e ≡ Code.not_found) ((with_users []).find_by_id 7 quiet)

find_by_id_reports_a_missing_user_as_not_found : FindByIdReportsAMissingUserAsNotFound
unfolding user_service require_user
find_by_id_reports_a_missing_user_as_not_found = (_, refl, refl)

abbrev ADuplicateConstraintBecomesAnUnprocessableError : Type 0
ADuplicateConstraintBecomesAnUnprocessableError =
    FailsAs (λ e. code_of e ≡ Code.unprocessable)
      ((failing user_duplicate_constraint).find_by_id 7 quiet)

a_duplicate_constraint_becomes_an_unprocessable_error :
    ADuplicateConstraintBecomesAnUnprocessableError
unfolding user_service require_user map_domain_error
a_duplicate_constraint_becomes_an_unprocessable_error = (_, refl, refl)

abbrev AnInvalidStatusBecomesAFieldViolation : Type 0
AnInvalidStatusBecomesAFieldViolation =
    FailsAs (HasViolation "status") ((failing status_not_found).find_by_id 7 quiet)

an_invalid_status_becomes_a_field_violation : AnInvalidStatusBecomesAFieldViolation
unfolding user_service require_user map_domain_error push_violation Dict.lookup Dict.push
an_invalid_status_becomes_a_field_violation = (_, refl, refl)

abbrev AnUnknownDepartmentBecomesAFieldViolation : Type 0
AnUnknownDepartmentBecomesAFieldViolation =
    FailsAs (HasViolation "department_id")
      ((failing department_not_found_constraint).find_by_id 7 quiet)

an_unknown_department_becomes_a_field_violation : AnUnknownDepartmentBecomesAFieldViolation
unfolding user_service require_user map_domain_error push_violation Dict.lookup Dict.push
an_unknown_department_becomes_a_field_violation = (_, refl, refl)

abbrev AWeakPasswordIsRejectedBeforeAnyTransactionOpens : Type 0
AWeakPasswordIsRejectedBeforeAnyTransactionOpens = FailsAs (HasViolation "password") (
    (with_users (a_user ∷ [])).partial_update "salt" 7 (record no_update { password = some "weak" })
      quiet)

a_weak_password_is_rejected_before_any_transaction_opens :
    AWeakPasswordIsRejectedBeforeAnyTransactionOpens
unfolding user_service partial_update require_user hash_update password_checker push_violation
    Dict.lookup Dict.push
a_weak_password_is_rejected_before_any_transaction_opens = (_, refl, refl)

abbrev UpdatingAMissingUserNeverReachesTheRepository : Type 0
UpdatingAMissingUserNeverReachesTheRepository =
    FailsAs (λ e. code_of e ≡ Code.not_found)
      ((with_users []).partial_update "salt" 7 no_update quiet)

updating_a_missing_user_never_reaches_the_repository : UpdatingAMissingUserNeverReachesTheRepository
unfolding user_service partial_update require_user
updating_a_missing_user_never_reaches_the_repository = (_, refl, refl)

abbrev DeletingAMissingUserNeverReachesTheRepository : Type 0
DeletingAMissingUserNeverReachesTheRepository =
    FailsAs (λ e. code_of e ≡ Code.not_found) ((with_users []).delete 7 quiet)

deleting_a_missing_user_never_reaches_the_repository : DeletingAMissingUserNeverReachesTheRepository
unfolding user_service delete require_user
deleting_a_missing_user_never_reaches_the_repository = (_, refl, refl)
