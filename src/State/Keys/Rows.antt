-- ===== src/State/Keys/Rows.antt =====
-- Rows of `iam.users` that change, against the other rows.
use api_starter.Base.{
  String, ◌≡◌, ◌≢◌, refl, sym, inl, inr, true, false, some, List, [], ◌∷◌, map, find, All, arith,
  nat_eq, ◌==◌, if◌then◌else◌, Bool-cases,
}
use api_starter.Base.Pairwise.{Pairwise, All-weaken, any-eq-false}
use api_starter.Database.{Uuid, Tables, UserRow}
use api_starter.Iam.Rows.{taken, refers}
use api_starter.Auth.Postgres.{with_password}
use api_starter.State.Stable.{KeepsName}
use api_starter.State.Keys.{Apart, user_there, unequal}

-- A row that the checks let through, against the other rows.
pub record Free (w v : UserRow) : Type 0 where
  pub names : v.id ≢ w.id → w.user_name ≢ v.user_name
  pub addresses : v.id ≢ w.id → w.email ≢ v.email

pub taken-eq-false : (w : UserRow) (us : List UserRow) → taken w us ≡ false → All (Free w) us
taken-eq-false w us h =
    All-weaken _ (Free w) us
      (λ v e. record {
        names = λ other same. unequal v.user_name w.user_name (ground arith) (sym same);
        addresses = λ other same. unequal v.email w.email (ground arith) (sym same);
      })
      (any-eq-false _ us h)

pub found_by_id :
    (id : Uuid) (us : List UserRow) {u : UserRow}
    → Pairwise Apart us
    → find (λ v. nat_eq v.id id) us ≡ some u
    → All (λ v. v.id ≡ id → v ≡ u) us
found_by_id id [] keys h = tt
found_by_id id (v ∷ us) {u} (here, rest) h = elim (Bool-cases (nat_eq v.id id)) [
  | inl e ↦
      let same : v ≡ u = ground arith in
      (λ k. same, All-weaken (Apart v) _ us (λ x apart k. absurd (apart.ids (ground arith))) here)
  | inr e ↦ (λ k. absurd (ground arith), found_by_id id us rest (rw e at h))
]

-- The rows once the row with an id is changed.
abbrev pub replaced : Uuid → (UserRow → UserRow) → UserRow → UserRow
replaced id f v = if nat_eq v.id id then f v else v

pub replaced_id :
    (id : Uuid) (f : UserRow → UserRow) → KeepsName f → (v : UserRow) → (replaced id f v).id ≡ v.id
replaced_id id f kept v = elim (Bool-cases (nat_eq v.id id)) [
  | inl e ↦ rw e (kept.same_id v)
  | inr e ↦ rw e refl
]

-- What a row is against the row that changes.
pub record Known (id : Uuid) (u w v : UserRow) : Type 0 where
  pub row : v.id ≡ id → v ≡ u
  pub free : Free w v

pub replaced-Apart :
    (id : Uuid) (f : UserRow → UserRow) (u : UserRow)
    → KeepsName f
    → u.id ≡ id
    → (x y : UserRow) → Known id u (f u) x
    → Known id u (f u) y
    → Apart x y
    → Apart (replaced id f x) (replaced id f y)
replaced-Apart id f u kept named x y p q r = elim (Bool-cases (nat_eq x.id id)) [
  | inl e ↦ elim (Bool-cases (nat_eq y.id id)) [
    | inl k ↦ absurd (r.ids (ground arith))
    | inr k ↦
        let same : x ≡ u = p.row (ground arith) in
        let own : (f u).id ≡ u.id = kept.same_id u in
        rw (e, k, same)
          (record {
            ids = λ h. absurd (ground arith);
            names = q.free.names (ground arith);
            addresses = q.free.addresses (ground arith);
          })
  ]
  | inr e ↦ elim (Bool-cases (nat_eq y.id id)) [
    | inl k ↦
        let same : y ≡ u = q.row (ground arith) in
        let own : (f u).id ≡ u.id = kept.same_id u in
        rw (e, k, same)
          (record {
            ids = λ h. absurd (ground arith);
            names = λ h. p.free.names (ground arith) (sym h);
            addresses = λ h. p.free.addresses (ground arith) (sym h);
          })
    | inr k ↦ rw (e, k) r
  ]
]

pub user_there-map :
    (g : UserRow → UserRow) (us : List UserRow) (id : Uuid)
    → ((v : UserRow) → (g v).id ≡ v.id)
    → user_there (map g us) id ≡ user_there us id
user_there-map g [] id h = refl
user_there-map g (v ∷ us) id h = rw (h v, user_there-map g us id h)

pub replaced-refers :
    (id : Uuid) (f : UserRow → UserRow) (t : Tables) (u : UserRow)
    → refers (f u) t ≡ true
    → (v : UserRow) → (v.id ≡ id → v ≡ u)
    → refers v t ≡ true
    → refers (replaced id f v) t ≡ true
replaced-refers id f t u there v row h = elim (Bool-cases (nat_eq v.id id)) [
  | inl e ↦ let same : v ≡ u = row (ground arith) in rw (e, same) there
  | inr e ↦ rw e h
]

-- A new hash changes nothing that a key reads.
pub record SameKeys (u v : UserRow) : Type 0 where
  pub same_id : v.id ≡ u.id
  pub same_name : v.user_name ≡ u.user_name
  pub same_email : v.email ≡ u.email
  pub same_refers : (t : Tables) → refers v t ≡ refers u t

abbrev pub rehash : String → String → UserRow → UserRow
rehash address hash u = if u.email == address then with_password hash u else u

pub rehash_same : (address hash : String) (u : UserRow) → SameKeys u (rehash address hash u)
rehash_same address hash u = elim (Bool-cases (u.email == address)) [
  | inl e ↦
      rw e (record { same_id = refl; same_name = refl; same_email = refl; same_refers = λ t. refl })
  | inr e ↦
      rw e (record { same_id = refl; same_name = refl; same_email = refl; same_refers = λ t. refl })
]
