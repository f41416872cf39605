-- ===== src/Tests/Fixtures.antt =====
-- Concrete crates and tables for the examples: the crates do what their hypotheses ask, on few inputs.
use api_starter.Base.{
  ℕ, zero, suc, String, ◌<>◌, ◌≡◌, refl, sym, ◌∙◌, ap, Bool, true, false, some, List, Result, ok,
  err, ◌==◌, eq_refl, arith, if◌then◌else◌, ◌⊎◌, inl, inr, ok_inj, code, Bool-cases, eq_iff, length,
}
use api_starter.Base.Int.{ℤ, pos, ltb_ℤ, ◌-ℤ◌}
use api_starter.Base.Json.{Value, number, string, array, texts}
use api_starter.Base.Decimal.{show_ℕ}
use api_starter.Base.Dict
use api_starter.Base.Dict.{Dict}
use api_starter.Base.Chars.{CharTables}
use api_starter.Base.{leb, ◌&&◌, ◌||◌}
use api_starter.Database.{UserRow, PasswordResetRow, Tables}
use api_starter.Jwt.{HmacTokenGenerator}
use api_starter.Auth.{Emailer}
use api_starter.External.{Crypto, Verifies, UuidText, Parses, JsonWebToken, Signs, Options}
use native.Mathlib.Decide.{ℕ_discrete}
use api_starter.Base.Text.{chars_count}
use text.Mathlib.TextLemmas.{nil-append, cons-append}
use Prim.Native.String.{[], ◌∷◌}

true_false : {B : Type 0} → ◌≡◌ {A = Bool} true false → B
true_false h = absurd (ground arith)

Dec-cases : {P : Type 0} (d : Dec P) → ((p : P) × (d ≡ yes p)) ⊎ ((p : ¬ P) × (d ≡ no p))
Dec-cases (yes p) = inl (p, refl)
Dec-cases (no p) = inr (p, refl)

String-discrete : Discrete String
String-discrete s t = elim (Bool-cases (s == t)) [
  | inl e ↦ yes ((eq_iff s t).0 e)
  | inr e ↦ no (λ p. true_false (sym ((eq_iff s t).1 p) ∙ e))
]

pub Claims-discrete : Discrete (Dict Value)
Claims-discrete = hlevel (ℕ_discrete, String-discrete)

-- Passwords are their own hashes; a digest is the numbers of the characters.
abbrev codes : String → List ℕ
codes [] = List.[]
codes (c ∷ s) = List.◌∷◌ (code c) (codes s)

abbrev digits : List ℕ → String
digits List.[] = ""
digits (List.◌∷◌ n ns) = show_ℕ n <> digits ns

abbrev pub crypto : Crypto
crypto = record {
  bcrypt_hash = λ salt password. ok password;
  bcrypt_verify = λ password hash. ok (password == hash);
  sha256 = codes;
  hex_encode = digits;
}

pub crypto-Verifies : Verifies crypto
crypto-Verifies salt password hash h =
    let same : password ≡ hash = ok_inj h in rw same (ap ok (eq_refl hash))

-- An id is written with as many strokes as its number.
abbrev strokes : ℕ → String
strokes zero = ""
strokes (suc n) = "I" <> strokes n

abbrev pub uuid : UuidText
uuid = record { to_text = strokes; parse_str = λ s. some (chars_count s) }

count_strokes : (n : ℕ) → chars_count (strokes n) ≡ n
count_strokes zero = refl
count_strokes (suc n) =
    rw (cons-append "I" "" (strokes n)) (rw (nil-append (strokes n)) (ap suc (count_strokes n)))

pub uuid-Parses : Parses uuid
uuid-Parses id = ap some (count_strokes id)

-- The two sets of claims that the one signer signs: of user 1 at second 1000.
abbrev pub access : Dict Value
access =
    List.◌∷◌ ("user_id", string (strokes 1))
      (List.◌∷◌ ("roles", array (texts (List.◌∷◌ "Admin" List.[])))
        (List.◌∷◌ ("exp", number (pos 4600)) List.[]))

abbrev pub refresh : Dict Value
refresh = List.◌∷◌ ("user_id", string (strokes 1)) (List.◌∷◌ ("exp", number (pos 605800)) List.[])

abbrev verdict : {P Q : Type 0} → Dec P → Dec Q → Result String String
verdict (yes p) other = ok "access"
verdict (no p) (yes q) = ok "refresh"
verdict (no p) (no q) = err "cannot sign"

abbrev within : ℤ → ℕ → Options → Dict Value → Result String (Dict Value)
within now expiry options claims =
    if ltb_ℤ (pos expiry) (now -ℤ pos options.leeway) then err "ExpiredSignature" else ok claims

abbrev pub jwt : JsonWebToken
jwt = record {
  encode = λ claims key. verdict (Claims-discrete claims access) (Claims-discrete claims refresh);
  decode = λ token key options now.
      if token == "access"
      then within now 4600 options access
      else if token == "refresh"
      then within now 605800 options refresh
      else err "InvalidToken";
}

two_three : {B : Type 0} → ◌≡◌ {A = ℕ} 2 3 → B
two_three h = absurd (omega arith)

never :
    {B : Type 0} {token : String}
    → ◌≡◌ {A = Result String String} (err "cannot sign") (ok token)
    → B
never h = absurd (ground arith)

number_inj : {n m : ℕ} → some (number (pos n)) ≡ some (number (pos m)) → n ≡ m
number_inj h = ground arith

pub encode-access : (key : List ℕ) → jwt.encode access key ≡ ok "access"
encode-access key = elim (Dec-cases (Claims-discrete access access)) [
  | inl (p, e) ↦ rw e refl
  | inr (p, e) ↦ absurd (p refl)
]

pub encode-refresh : (key : List ℕ) → jwt.encode refresh key ≡ ok "refresh"
encode-refresh key = elim (Dec-cases (Claims-discrete refresh access)) [
  | inl (p, e) ↦ absurd (two_three (ap length p))
  | inr (p, e) ↦ elim (Dec-cases (Claims-discrete refresh refresh)) [
    | inl (q, k) ↦ rw (e, k) refl
    | inr (q, k) ↦ absurd (q refl)
  ]
]

-- What was signed.
signed :
    (claims : Dict Value) (key : List ℕ) (token : String)
    → jwt.encode claims key ≡ ok token
    → ((claims ≡ access) × (token ≡ "access")) ⊎ ((claims ≡ refresh) × (token ≡ "refresh"))
signed claims key token h = elim (Dec-cases (Claims-discrete claims access)) [
  | inl (p, e) ↦ inl (p, sym (ok_inj (rw e at h)))
  | inr (p, e) ↦ elim (Dec-cases (Claims-discrete claims refresh)) [
    | inl (q, k) ↦ inr (q, sym (ok_inj (rw (e, k) at h)))
    | inr (q, k) ↦ absurd (never (rw (e, k) at h))
  ]
]

expiry_of :
    (claims : Dict Value) (n expiry : ℕ)
    → Dict.lookup "exp" claims ≡ some (number (pos n))
    → Dict.lookup "exp" claims ≡ some (number (pos expiry))
    → n ≡ expiry
expiry_of claims n expiry h k = number_inj (sym h ∙ k)

pub jwt-Signs : Signs jwt
unfolding Dict.lookup
jwt-Signs = record {
  accepts = λ claims key token options expiry now h at fresh. elim (signed claims key token h) [
    | inl (c, k) ↦ rw (c, k) (rw (expiry_of access 4600 expiry refl (rw c at at)) (rw fresh refl))
    | inr (c, k) ↦
        rw (c, k) (rw (expiry_of refresh 605800 expiry refl (rw c at at)) (rw fresh refl))
  ];
  expires = λ claims key token options expiry now h at late. elim (signed claims key token h) [
    | inl (c, k) ↦ (
      "ExpiredSignature",
      rw k (rw (expiry_of access 4600 expiry refl (rw c at at)) (rw late refl)),
    )
    | inr (c, k) ↦ (
      "ExpiredSignature",
      rw k (rw (expiry_of refresh 605800 expiry refl (rw c at at)) (rw late refl)),
    )
  ];
}

abbrev pub admin : UserRow
admin = record {
  id = 1;
  user_name = "admin";
  avatar_id = "";
  email = "admin@example.com";
  password = "Passw0rd!";
  first_name = "App";
  last_name = "Admin";
  status_id = pos 1;
  department_id = pos 1;
}

abbrev pub staff : UserRow
staff = record admin { id = 2; user_name = "staff"; email = "staff@example.com"; password = "old" }

abbrev pub reset_row : PasswordResetRow
reset_row = record {
  email = "staff@example.com";
  token = digits (codes "t");
  created_at = pos 1000000000000;
}

-- The seeds of migrations/iam, with a second user that has asked for a new password.
abbrev pub seeds : Tables
seeds = record {
  user_statuses =
      List.◌∷◌ (record { id = pos 1; status = some "Active" })
        (List.◌∷◌ (record { id = pos 2; status = some "Deleted" }) List.[]);
  companies = List.◌∷◌ (record { id = pos 1; name = "Example Company Ltd" }) List.[];
  departments =
      List.◌∷◌ (record { id = pos 1; name = some "Administration"; company_id = some (pos 1) })
        List.[];
  users = List.◌∷◌ admin (List.◌∷◌ staff List.[]);
  modules = List.◌∷◌ (record { id = pos 1; name = "IAM Module" }) List.[];
  permissions =
      List.◌∷◌
        (record {
          id = pos 1;
          name = some "View All";
          resource = some "Users";
          module_id = some (pos 1);
        })
        List.[];
  roles =
      List.◌∷◌ (record { id = pos 1; name = "Admin" })
        (List.◌∷◌ (record { id = pos 3; name = "Staff" }) List.[]);
  role_has_permissions = List.◌∷◌ (record { role_id = pos 1; permission_id = pos 1 }) List.[];
  user_has_roles = List.◌∷◌ (record { user_id = 1; role_id = pos 1 }) List.[];
  password_resets = List.◌∷◌ reset_row List.[];
}

-- A transport that takes every mail.
abbrev pub mailer : Emailer
mailer = record {
  send_html = λ to subject template values w. (
    ok tt,
    record w {
      sent =
          List.◌∷◌ (record { to = to; subject = subject; template = template; values = values })
            w.sent;
    },
  );
}

abbrev pub key : HmacTokenGenerator
key = record { secret = List.[] }

-- Unicode's tables, on the characters of the examples.
abbrev pub tables : CharTables
tables = record {
  is_uppercase = λ c. leb b'A' (code c) && leb (code c) b'Z';
  is_lowercase = λ c. leb b'a' (code c) && leb (code c) b'z';
  is_alphanumeric = λ c.
      (leb b'A' (code c) && leb (code c) b'Z')
      || (leb b'a' (code c) && leb (code c) b'z')
      || (leb b'0' (code c) && leb (code c) b'9');
}
