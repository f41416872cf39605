-- ===== src/State/Keys/Kept.antt =====
-- Every statement of the repositories keeps the keys.
use api_starter.Base.{
  String, ◌≡◌, ◌≢◌, sym, ◌∙◌, inl, inr, true, false, ◌||◌, some, List, [], ◌∷◌, ◌++◌, ok, map, find,
  All, All-append, any-append, arith, nat_eq, is_empty, Bool-cases, Option-cases, ok_inj,
}
use mathlib.Core.Path.{subst}
use api_starter.Base.Pairwise.{
  All-map, All-weaken, All-every, All-zip, All-keep, any-eq-false, Pairwise-keep, Pairwise-append,
  Pairwise-map, All-swap, find-passes,
}
use api_starter.Database.{Uuid, Tables, UserRow}
use api_starter.Iam.Rows.{
  taken, refers, granted, delete_roles, update_row, insert_row, insert_roles, checked,
}
use api_starter.Database.Outcomes.{no_ok}
use api_starter.State.Stable.{Stable, KeepsName}
use api_starter.State.Keys.{Apart, user_there, WellFormed}
use api_starter.State.Keys.Rows.{
  taken-eq-false, found_by_id, replaced, replaced_id, Known, replaced-Apart, user_there-map,
  replaced-refers, rehash, rehash_same,
}
use api_starter.State.Keys.Grants.{granted_holders, granted_held, granted_pairwise, granted_new}

module _ (report : String → String) where
  checked_free :
      (u : UserRow) (t after : Tables) {t' : Tables}
      → checked report u t after ≡ ok t'
      → (taken u t.users ≡ false) × (refers u t ≡ true) × (after ≡ t')
  checked_free u t after h = elim (Bool-cases (taken u t.users)) [
    | inl e ↦ absurd (ground arith)
    | inr e ↦ elim (Bool-cases (refers u t)) [
      | inl k ↦ (e, k, ok_inj (rw (e, k) at h))
      | inr k ↦ absurd (ground arith)
    ]
  ]

  updated_row :
      (id : Uuid) (f : UserRow → UserRow) (t : Tables) (u : UserRow)
      → KeepsName f
      → find (λ v. nat_eq v.id id) t.users ≡ some u
      → taken (f u) t.users ≡ false
      → refers (f u) t ≡ true
      → WellFormed t
      → WellFormed (record t { users = map (replaced id f) t.users })
  updated_row id f t u kept found free there wf =
      let named : u.id ≡ id = ground (find-passes (λ v. nat_eq v.id id) t.users found, arith) in
      let is_row = found_by_id id t.users wf.users found in
      let known =
        All-zip _ _ (Known id u (f u)) t.users (λ v r q. record { row = r; free = q }) is_row
          (taken-eq-false (f u) t.users free) in
      record {
        users =
            Pairwise-map (Known id u (f u)) Apart Apart (replaced id f) t.users
              (replaced-Apart id f u kept named) known wf.users;
        refer =
            All-map (λ v. refers v t ≡ true) (replaced id f) t.users
              (All-zip _ _ (λ v. refers (replaced id f v) t ≡ true) t.users
                (replaced-refers id f t u there) is_row wf.refer);
        holders =
            All-weaken _ _ t.user_has_roles
              (λ g h. user_there-map (replaced id f) t.users g.user_id (replaced_id id f kept) ∙ h)
              wf.holders;
        held = wf.held;
        roles = wf.roles;
        grants = wf.grants;
      }

  inserted_row :
      (u : UserRow) (t : Tables)
      → user_there t.users u.id ≡ false
      → taken u t.users ≡ false
      → refers u t ≡ true
      → WellFormed t
      → WellFormed (record t { users = t.users ++ (u ∷ []) })
  inserted_row u t fresh free there wf = record {
    users =
        Pairwise-append Apart t.users (u ∷ []) wf.users (tt, tt)
          (All-zip _ _ (λ v. All (Apart v) (u ∷ [])) t.users
            (λ v other q.
              let ids : v.id ≢ u.id = ground arith in
              (
                record {
                  ids = ids;
                  names = λ h. q.names ids (sym h);
                  addresses = λ h. q.addresses ids (sym h);
                },
                tt,
              ))
            (any-eq-false _ t.users fresh) (taken-eq-false u t.users free));
    refer = All-append (λ v. refers v t ≡ true) t.users (u ∷ []) wf.refer (there, tt);
    holders =
        All-weaken _ _ t.user_has_roles
          (λ g h. any-append (λ v. nat_eq v.id g.user_id) t.users (u ∷ []) ∙ rw h) wf.holders;
    held = wf.held;
    roles = wf.roles;
    grants = wf.grants;
  }

  granted_rows :
      (id : Uuid) (names : List String) (t : Tables)
      → (is_empty (granted id names t) || user_there t.users id) ≡ true
      → WellFormed t
      → WellFormed (record t { user_has_roles = t.user_has_roles ++ granted id names t })
  granted_rows id names t ok_there wf = record {
    holders =
        All-append _ t.user_has_roles (granted id names t) wf.holders
          (granted_holders id names t ok_there);
    held = All-append _ t.user_has_roles (granted id names t) wf.held (granted_held id names t);
    grants =
        Pairwise-append _ t.user_has_roles (granted id names t) wf.grants
          (granted_pairwise id names t wf.roles)
          (All-swap _ t.user_has_roles (granted id names t) (granted_new id names t));
    users = wf.users;
    refer = wf.refer;
    roles = wf.roles;
  }

  rehashed_rows :
      (address hash : String) (t : Tables)
      → WellFormed t
      → WellFormed (record t { users = map (rehash address hash) t.users })
  rehashed_rows address hash t wf =
      let same = rehash_same address hash in
      record {
        users =
            Pairwise-map (λ v. Unit {0}) Apart Apart (rehash address hash) t.users
              (λ x y p q r. record {
                ids = λ h. r.ids (sym (same x).same_id ∙ h ∙ (same y).same_id);
                names = λ h. r.names (sym (same x).same_name ∙ h ∙ (same y).same_name);
                addresses = λ h. r.addresses (sym (same x).same_email ∙ h ∙ (same y).same_email);
              })
              (All-every _ t.users (λ v. tt)) wf.users;
        refer =
            All-map (λ v. refers v t ≡ true) (rehash address hash) t.users
              (All-weaken _ _ t.users (λ v h. (same v).same_refers t ∙ h) wf.refer);
        holders =
            All-weaken _ _ t.user_has_roles
              (λ g h.
                user_there-map (rehash address hash) t.users g.user_id (λ v. (same v).same_id) ∙ h)
              wf.holders;
        held = wf.held;
        roles = wf.roles;
        grants = wf.grants;
      }

  -- Every statement of the repositories keeps the keys.
  pub WellFormed-Stable : Stable report WellFormed
  unfolding update_row insert_row insert_roles delete_roles
  WellFormed-Stable = record {
    updated = λ id f t kept wf done. elim (Option-cases (find (λ v. nat_eq v.id id) t.users)) [
      | inl e ↦ subst WellFormed (ok_inj (rw (e, update_row) at done)) wf
      | inr (u, e) ↦
          let (free, there, same) = checked_free (f u) t _ (rw (e, update_row) at done) in
          subst WellFormed same (updated_row id f t u kept e free there wf)
    ];
    inserted = λ u t wf done. elim (Bool-cases (user_there t.users u.id)) [
      | inl e ↦ no_ok (rw (e, insert_row) at done)
      | inr e ↦
          let (free, there, same) = checked_free u t _ (rw (e, insert_row) at done) in
          subst WellFormed same (inserted_row u t e free there wf)
    ];
    granting = λ id names t wf done.
        elim (Bool-cases (is_empty (granted id names t) || user_there t.users id)) [
          | inl e ↦
              subst WellFormed (ok_inj (rw (e, insert_roles) at done))
                (granted_rows id names t e wf)
          | inr e ↦ no_ok (rw (e, insert_roles) at done)
        ];
    revoked = λ id names t wf. record {
      holders =
          All-keep _ _ t.user_has_roles (All-weaken _ _ t.user_has_roles (λ g h k. h) wf.holders);
      held = All-keep _ _ t.user_has_roles (All-weaken _ _ t.user_has_roles (λ g h k. h) wf.held);
      grants = Pairwise-keep _ _ t.user_has_roles wf.grants;
      users = wf.users;
      refer = wf.refer;
      roles = wf.roles;
    };
    rehashed = rehashed_rows;
    resetting = λ rows t wf. record {
      users = wf.users;
      refer = wf.refer;
      holders = wf.holders;
      held = wf.held;
      roles = wf.roles;
      grants = wf.grants;
    };
  }
