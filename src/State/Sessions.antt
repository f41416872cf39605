-- ===== src/State/Sessions.antt =====
-- Sessions over the life of the server.
use api_starter.Base.{
  ℕ, String, ◌+◌, ◌/◌, ◌≡◌, refl, sym, ap, ◌∙◌, inl, inr, some, none, Option, List, [], ◌∷◌, ◌++◌,
  ok, map, ◌==◌, nat_eq, Bool-cases, Bool, find, arith,
}
use api_starter.Base.Int.{pos, ◌≤ℤ◌}
use api_starter.Base.Chars.{CharTables}
use api_starter.Base.Clock.{timestamp, nanos}
use api_starter.Base.Pairwise.{Pairwise, All-weaken}
use api_starter.Database.{Uuid, DateTime, Tables, UserRow}
use api_starter.Database.Effect.{World, Mail, calm}
use api_starter.External.{Crypto, UuidText, JsonWebToken, Signs, Parses}
use api_starter.Jwt.{HmacTokenGenerator, hmac_generator}
use api_starter.Auth.{AuthenticationTokens, Emailer}
use api_starter.Auth.Postgres.{postgres_store, map_option}
use api_starter.Auth.Reads.{by_id, by_email, identity, HasKeys, find_by_key}
use api_starter.Auth.Login.{get_identity_named, issued_user}
use api_starter.Auth.Service.{login, get_identity}
use api_starter.Auth.Tokens.{user_id_from-generate_tokens}
use api_starter.Iam.Users.{Listing}
use api_starter.State.Accounts.{LeavesTables}
use api_starter.State.Keys.{WellFormed, Apart}
use api_starter.State.Calls.{Services, Reach, auth}
use api_starter.State.History.{account, Extends, Reach-Extends}

-- Rows that differ in their keys differ in their ids.
pub Apart-HasKeys : (us : List UserRow) → Pairwise Apart us → HasKeys us
Apart-HasKeys [] h = tt
Apart-HasKeys (u ∷ us) (here, rest) =
    (All-weaken (Apart u) _ us (λ v apart e. apart.ids (sym e)) here, Apart-HasKeys us rest)

abbrev has_id : Uuid → Uuid × String → Bool
has_id id a = nat_eq a.0 id

find-account :
    (id : Uuid) (us : List UserRow)
    → find (has_id id) (map account us) ≡ map_option account (find (λ u. nat_eq u.id id) us)
find-account id [] = refl
find-account id (u ∷ us) = elim (Bool-cases (nat_eq u.id id)) [
  | inl e ↦ rw e refl
  | inr e ↦ rw e (find-account id us)
]

find-append :
    {A : Type 0} (p : A → Bool) (xs ys : List A) {x : A}
    → find p xs ≡ some x
    → find p (xs ++ ys) ≡ some x
find-append p [] ys h = absurd (ground arith)
find-append p (x ∷ xs) ys h = elim (Bool-cases (p x)) [
  | inl e ↦ rw e (rw e at h)
  | inr e ↦ rw e (find-append p xs ys (rw e at h))
]

mapped_some :
    {A B : Type 0} (f : A → B) (o : Option A) {b : B}
    → map_option f o ≡ some b
    → (a : A) × (o ≡ some a) × (f a ≡ b)
mapped_some f none h = absurd (ground arith)
mapped_some f (some a) h = (a, refl, ground arith)

-- An account that is there stays there.
pub by_id-Extends :
    (start t : Tables) (id : Uuid) {u : UserRow}
    → Extends start t
    → by_id id start ≡ some u
    → (later : UserRow) × (by_id id t ≡ some later) × (account later ≡ account u)
by_id-Extends start t id {u} (same, more, e) found =
    let first : find (has_id id) (map account start.users) ≡ some (account u) =
      find-account id start.users ∙ ap (map_option account) found in
    let whole = find-append (has_id id) (map account start.users) more first in
    mapped_some account (by_id id t)
      (sym (find-account id t.users) ∙ ap (find (has_id id)) e ∙ whole)

-- Both services with HS256 tokens.
abbrev pub hmac_services :
    CharTables
    → Crypto
    → UuidText
    → JsonWebToken
    → HmacTokenGenerator
    → Emailer
    → ℕ
    → ℕ
    → (String → String)
    → Listing
    → Services
hmac_services tables crypto uuid j g mailer token_ttl refresh_token_ttl report listing = record {
  tables = tables;
  crypto = crypto;
  uuid = uuid;
  jwt = hmac_generator j g;
  mailer = mailer;
  token_ttl = pos token_ttl;
  refresh_token_ttl = pos refresh_token_ttl;
  report = report;
  listing = listing;
}

module _ (tables : CharTables) (crypto : Crypto) (uuid : UuidText) (parses : Parses uuid)
    (j : JsonWebToken) (lawful : Signs j) (g : HmacTokenGenerator) (mailer : Emailer)
    (quiet : LeavesTables mailer) (token_ttl refresh_token_ttl : ℕ) (report : String → String)
    (listing : Listing) where
  abbrev services : Services
  services = hmac_services tables crypto uuid j g mailer token_ttl refresh_token_ttl report listing

  -- After a login at tables with their keys at which no call fails, the access token names one
  -- account for its lifetime: in every state that any calls reach from there, where no call fails,
  -- it is answered with the identity of the row which then has the id and the user name of the user
  -- that logged in, whatever that row's address, password, status and roles have become.
  pub login-Reach :
      (start t : Tables) (sent sent' : List Mail) (issued_at : ℕ) (email password : String)
      (tokens : AuthenticationTokens) (w : World) (later : DateTime)
      → WellFormed start
      → login crypto uuid (auth services) (pos issued_at) email password (calm start sent)
        ≡ (ok tokens, w)
      → Reach services start t
      → timestamp later ≤ℤ pos (issued_at / nanos + token_ttl)
      → (u : UserRow) × (now : UserRow) × (by_email email start ≡ some u)
        × (account now ≡ account u)
        × (by_id u.id t ≡ some now)
        × (get_identity crypto uuid (auth services) later tokens.token (calm t sent')
            ≡ (ok (identity t now), calm t sent'))
  login-Reach start t sent sent' issued_at email password tokens w later wf h r soon =
      let jwt = hmac_generator j g in
      let (u, found, good, made) =
        issued_user crypto uuid jwt mailer (pos token_ttl) (pos refresh_token_ttl) start sent
          (pos issued_at) email password h in
      let by_key =
        find_by_key (λ v. v.email == email) start.users (Apart-HasKeys start.users wf.users)
          found in
      let (now, there, same) = by_id-Extends start t u.id (Reach-Extends services quiet r) by_key in
      let named =
        user_id_from-generate_tokens crypto uuid parses j lawful g postgres_store mailer token_ttl
          refresh_token_ttl issued_at (identity start u) tokens later made in
      (
        u,
        now,
        found,
        same,
        there,
        get_identity_named crypto uuid jwt mailer (pos token_ttl) (pos refresh_token_ttl) t sent'
            later tokens.token (named.0 soon) there,
      )
