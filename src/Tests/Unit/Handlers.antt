-- ===== src/Tests/Unit/Handlers.antt =====
-- The tests of src/module/iam/adapter/handler/user.rs. Where the source makes any id, it is 7.
use api_starter.Base.{String, ◌≡◌, refl, [], ◌∷◌}
use api_starter.Base.Int.{pos}
use api_starter.Iam
use api_starter.Iam.{Role}
use api_starter.Iam.Handlers.{from_user}

abbrev domain_user : Iam.User
domain_user = record {
  id = 7;
  user_name = "admin";
  avatar_id = "avatar.gif";
  email = "admin@example.com";
  password = "$2a$10$averysecrethash";
  first_name = "App";
  last_name = "Admin";
  status = record { id = pos 1; status = "Active" };
  department = record {
    id = pos 1;
    name = "Administration";
    company = record { id = pos 1; name = "Example Company Ltd" };
  };
  roles =
      (record { role_id = pos 1; name = "Admin" })
      ∷ (record { role_id = pos 3; name = "Staff" })
      ∷ [];
}

abbrev FlattensTheDomainUserIntoTheResponseShape : Type 0
FlattensTheDomainUserIntoTheResponseShape =
    let dto = from_user domain_user in
    (dto.user_id ≡ 7)
    × (dto.status ≡ "Active")
    × (dto.department.department_name ≡ "Administration")
    × (dto.department.company.name ≡ "Example Company Ltd")
    × (dto.roles ≡ "Admin" ∷ "Staff" ∷ [])

flattens_the_domain_user_into_the_response_shape : FlattensTheDomainUserIntoTheResponseShape
unfolding from_user
flattens_the_domain_user_into_the_response_shape = (refl, refl, refl, refl, refl)

-- What is sent does not depend on the hash, of any user.
abbrev ThePasswordHashNeverReachesTheResponseBody : Type 0
ThePasswordHashNeverReachesTheResponseBody =
    (user : Iam.User) (hash : String) → from_user (record user { password = hash }) ≡ from_user user

the_password_hash_never_reaches_the_response_body : ThePasswordHashNeverReachesTheResponseBody
unfolding from_user
the_password_hash_never_reaches_the_response_body user hash = refl
