-- ===== src/State/History.antt =====
-- What is never lost: accounts, and what the roles mean.
use api_starter.Base.{
  Bool, true, false, ◌||◌, is_empty, String, ◌≡◌, refl, ap, ◌∙◌, inl, inr, List, [], ◌∷◌, ◌++◌, map,
  ◌==◌, nat_eq, if◌then◌else◌, Bool-cases, ok_inj, any,
}
use mathlib.Core.Path.{subst}
use api_starter.Database.{
  Uuid, Tables, UserRow, StatusRow, CompanyRow, DepartmentRow, ModuleRow, PermissionRow, RoleRow,
  RoleHasPermission,
}
use api_starter.Database.Outcomes.{no_ok}
use api_starter.Auth.Postgres.{with_password}
use api_starter.Iam.Rows.{granted, insert_row, insert_roles, delete_roles}
use api_starter.Iam.SelfService.{update_row-eq-ok, checked-eq-ok}
use api_starter.State.Stable.{Stable, KeepsName}
use api_starter.State.Accounts.{LeavesTables}
use api_starter.State.Calls.{Services, Reach, Reach-Stable}

-- The part of a row that stands for the account.
abbrev pub account : UserRow → Uuid × String
account u = (u.id, u.user_name)

-- The tables that no operation writes.
pub record Catalogue : Type 0 where
  pub user_statuses : List StatusRow
  pub companies : List CompanyRow
  pub departments : List DepartmentRow
  pub modules : List ModuleRow
  pub permissions : List PermissionRow
  pub roles : List RoleRow
  pub role_has_permissions : List RoleHasPermission

abbrev pub catalogue : Tables → Catalogue
catalogue t = record {
  user_statuses = t.user_statuses;
  companies = t.companies;
  departments = t.departments;
  modules = t.modules;
  permissions = t.permissions;
  roles = t.roles;
  role_has_permissions = t.role_has_permissions;
}

-- A later state of the tables: the accounts of the earlier one, in their order, come first, and the
-- catalogue is the same.
abbrev pub Extends : Tables → Tables → Type 0
Extends start t =
    (catalogue t ≡ catalogue start)
    × (more : List (Uuid × String)) × (map account t.users ≡ map account start.users ++ more)

append_nil : {A : Type 0} (xs : List A) → xs ≡ xs ++ []
append_nil [] = refl
append_nil (x ∷ xs) = ap (λ rest. x ∷ rest) (append_nil xs)

append_assoc : {A : Type 0} (xs ys zs : List A) → (xs ++ ys) ++ zs ≡ xs ++ (ys ++ zs)
append_assoc [] ys zs = refl
append_assoc (x ∷ xs) ys zs = ap (λ rest. x ∷ rest) (append_assoc xs ys zs)

accounts-map :
    (g : UserRow → UserRow) (us : List UserRow)
    → ((u : UserRow) → account (g u) ≡ account u)
    → map account (map g us) ≡ map account us
accounts-map g [] h = refl
accounts-map g (u ∷ us) h = rw (h u, accounts-map g us h) refl

map-append : (us vs : List UserRow) → map account (us ++ vs) ≡ map account us ++ map account vs
map-append [] vs = refl
map-append (u ∷ us) vs = ap (λ rest. account u ∷ rest) (map-append us vs)

account_if :
    (b : Bool) (f : UserRow → UserRow) (u : UserRow)
    → account (f u) ≡ account u
    → account (if b then f u else u) ≡ account u
account_if true f u h = h
account_if false f u h = refl

account_kept : (f : UserRow → UserRow) → KeepsName f → (u : UserRow) → account (f u) ≡ account u
account_kept f kept u = rw (kept.same_id u, kept.same_name u) refl

module _ (report : String → String) (start : Tables) where
  -- Rows that are changed within their accounts.
  rows_changed :
      (g : UserRow → UserRow) (t : Tables)
      → ((u : UserRow) → account (g u) ≡ account u)
      → Extends start t
      → Extends start (record t { users = map g t.users })
  rows_changed g t h (same, more, e) = (same, more, accounts-map g t.users h ∙ e)

  row_added :
      (u : UserRow) (t : Tables)
      → Extends start t
      → Extends start (record t { users = t.users ++ (u ∷ []) })
  row_added u t (same, more, e) = (
    same,
    more ++ (account u ∷ []),
    map-append t.users (u ∷ [])
        ∙ ap (λ xs. xs ++ (account u ∷ [])) e
        ∙ append_assoc (map account start.users) more (account u ∷ []),
  )

  pub Extends-Stable : Stable report (Extends start)
  unfolding insert_row insert_roles delete_roles
  Extends-Stable = record {
    updated = λ id f t kept q done. elim (update_row-eq-ok report id f t done) [
      | inl e ↦ subst (Extends start) e q
      | inr e ↦
          subst (Extends start) e
            (rows_changed _ t (λ u. account_if (nat_eq u.id id) f u (account_kept f kept u)) q)
    ];
    inserted = λ u t q done. elim (Bool-cases (any (λ v. nat_eq v.id u.id) t.users)) [
      | inl e ↦ no_ok (rw (e, insert_row) at done)
      | inr e ↦
          subst (Extends start) (checked-eq-ok report u t _ (rw (e, insert_row) at done))
            (row_added u t q)
    ];
    granting = λ id names t q done.
        elim (Bool-cases (is_empty (granted id names t) || any (λ v. nat_eq v.id id) t.users)) [
          | inl e ↦ subst (Extends start) (ok_inj (rw (e, insert_roles) at done)) q
          | inr e ↦ no_ok (rw (e, insert_roles) at done)
        ];
    revoked = λ id names t q. q;
    rehashed = λ address hash t q.
        rows_changed _ t (λ u. account_if (u.email == address) (with_password hash) u refl) q;
    resetting = λ rows t q. q;
  }

module _ (s : Services) (quiet : LeavesTables s.mailer) where
  -- Whatever is asked of the services, in whatever order and whatever becomes of their calls to the
  -- database, if the mailer leaves the tables alone then no account is ever lost, renamed or moved:
  -- the ids and user names of the users at the start come first among those of every state reached,
  -- in their order; and the statuses, companies, departments, modules, permissions and roles, and
  -- which role has which permission, are those of the start.
  pub Reach-Extends : {start t : Tables} → Reach s start t → Extends start t
  Reach-Extends {start} r =
      Reach-Stable s quiet (Extends start) (Extends-Stable s.report start)
        (refl, [], append_nil (map account start.users)) r
