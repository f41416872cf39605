-- ===== src/Auth/Postgres.antt =====
-- src/package/auth/store.rs: the store over the tables. A query is written as the rows that its
-- text selects. The lengths of text columns are not checked.
use api_starter.Base.{
  String, not, ◌&&◌, ◌==◌, Option, none, some, List, [], ◌∷◌, ◌++◌, map, find, keep, flat, nat_eq,
  ok, if◌then◌else◌,
}
use api_starter.Base.Int.{ℤ, int_eq}
use api_starter.Database.{Uuid, DateTime, Tables, UserRow, PasswordResetRow}
use api_starter.Database.Errors.{SqlError}
use api_starter.Database.Effect.{Eff, ◌>>=◌, ret, query, execute}
use api_starter.Jwt.{TokenGenerator}
use api_starter.Auth.{Identity, PasswordReset, Store, Emailer}
use api_starter.Auth.Service.{AuthService}

-- The names of a user's roles, by the join of `roles` and `user_has_roles`.
unfoldable pub role_names : Uuid → Tables → List String
role_names user_id t =
    flat
      (λ r.
        map (λ uhr. r.name)
          (keep (λ uhr. int_eq r.id uhr.role_id && nat_eq uhr.user_id user_id) t.user_has_roles))
      t.roles

unfoldable pub get_user_roles : Uuid → Eff SqlError (List String)
get_user_roles user_id = query (λ t. ok (role_names user_id t))

abbrev pub identity_of : UserRow → List String → Identity
identity_of row roles = record {
  id = row.id;
  email = row.email;
  user_name = row.user_name;
  password = row.password;
  roles = roles;
}

unfoldable pub enrich : Option UserRow → Eff SqlError (Option Identity)
unfolding get_user_roles
enrich none = ret none
enrich (some row) = do roles ← get_user_roles row.id; ret (some (identity_of row roles))

unfoldable pub find_user_by_id : Uuid → Eff SqlError (Option Identity)
unfolding enrich
find_user_by_id user_id = do
  row ← query (λ t. ok (find (λ u. nat_eq u.id user_id) t.users))
  enrich row

unfoldable pub find_user_by_email : String → Eff SqlError (Option Identity)
unfolding enrich
find_user_by_email email = do
  row ← query (λ t. ok (find (λ u. u.email == email) t.users))
  enrich row

unfoldable pub create_password_reset : DateTime → String → String → Eff SqlError (Unit {0})
create_password_reset now email token = execute λ t. ok (
  tt,
  record t {
    password_resets =
        t.password_resets ++ (record { email = email; token = token; created_at = now } ∷ []);
  },
)

abbrev pub with_password : String → UserRow → UserRow
with_password password u = record u { password = password }

unfoldable pub reset_password : String → String → Eff SqlError (Unit {0})
reset_password email new_password = execute λ t. ok (
  tt,
  record t {
    users = map (λ u. if u.email == email then with_password new_password u else u) t.users;
  },
)

abbrev pub reset_of : PasswordResetRow → PasswordReset
reset_of row = record { email = row.email; token = row.token; created_at = row.created_at }

abbrev pub map_option : {A B : Type 0} → (A → B) → Option A → Option B
map_option f none = none
map_option f (some a) = some (f a)

unfoldable pub find_password_by_token : String → Eff SqlError (Option PasswordReset)
find_password_by_token token = do
  row ← query (λ t. ok (find (λ r. r.token == token) t.password_resets))
  ret (map_option reset_of row)

unfoldable pub delete_password_reset : String → Eff SqlError (Unit {0})
delete_password_reset email = execute λ t.
    ok (tt, record t { password_resets = keep (λ r. not (r.email == email)) t.password_resets })

unfoldable pub postgres_store : Store
postgres_store = record {
  find_user_by_id = find_user_by_id;
  find_user_by_email = find_user_by_email;
  create_password_reset = create_password_reset;
  reset_password = reset_password;
  find_password_by_token = find_password_by_token;
  delete_password_reset = delete_password_reset;
}

-- The service over the tables.
abbrev pub over_tables : TokenGenerator → Emailer → ℤ → ℤ → AuthService
over_tables jwt mailer token_ttl refresh_token_ttl = record {
  jwt = jwt;
  store = postgres_store;
  mailer = mailer;
  token_ttl = token_ttl;
  refresh_token_ttl = refresh_token_ttl;
}
