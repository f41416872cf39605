-- ===== src/Emailer.antt =====
-- src/package/emailer/mod.rs: the mailer over SMTP. `lettre` is a record of functions, and its errors
-- are their `Display` texts.
pub mod Laws
use api_starter.Base.{
  ℕ, zero, suc, ◌-◌, String, ◌<>◌, ◌==◌, Bool, true, false, Option, none, some, List, Result, ok,
  err, ok_or, find, map_err, not, if◌then◌else◌,
}
use mathlib.Core.List
use Prim.Native.String.{[], ◌∷◌}
use api_starter.Base.Text.{is_empty_str, strip_prefix, chars_count}
use api_starter.Base.Dict.{Dict}
use api_starter.Database.Effect.{Eff, ◌>>=◌, lift, on_error}
use api_starter.Config.Settings.{Mail}
use api_starter.Auth.{Emailer}

pub data EmailerError : Type 0 where
  template_not_found : String → EmailerError
  build : String → EmailerError
  address : String → EmailerError
  transport : String → EmailerError

-- `Display`
abbrev pub emailer_text : EmailerError → String
emailer_text (template_not_found name) = "template `" <> name <> "` not found"
emailer_text (build e) = "failed to build the message: " <> e
emailer_text (address e) = "invalid mail address: " <> e
emailer_text (transport e) = "failed to send the message: " <> e

-- What the builder of a transport is given.
pub record Transport : Type 0 where
  pub host : String
  pub port : ℕ
  pub credentials : Option (String × String)

-- `lettre`: parsing a mailbox, building an HTML message of its sender, recipient, subject and body,
-- and sending it.
pub record Lettre (Mailbox Message : Type 0) : Type 0 where
  pub parse : String → Result String Mailbox
  pub body : Mailbox → Mailbox → String → String → Result String Message
  pub send : Transport → Message → Eff String (Unit {0})

-- `str::replace`, for a pattern that is not empty: after an occurrence as many characters are passed
-- over as the pattern has.
unfoldable pub replace_from : ℕ → String → String → String → String
unfolding strip_prefix
replace_from passed pattern with [] = []
replace_from zero pattern with (c ∷ s) =
    let found = with <> replace_from (chars_count pattern - 1) pattern with s in
    let rest = c ∷ replace_from 0 pattern with s in
    elim (strip_prefix pattern (c ∷ s)) [ none ↦ rest | some after ↦ found ]
replace_from (suc passed) pattern with (c ∷ s) = replace_from passed pattern with s

abbrev pub replace : String → String → String → String
replace s pattern with = replace_from 0 pattern with s

-- `"{{key}}"`
abbrev pub placeholder : String → String
placeholder key = "{{" <> key <> "}}"

-- The fold over the data.
unfoldable pub fill : String → Dict String → String
unfolding replace_from
fill body List.[] = body
fill body (List.◌∷◌ (key, value) rest) = fill (replace body (placeholder key) value) rest

pub record SmtpEmailer : Type 0 where
  pub transport : Transport
  pub from : String

-- `SmtpEmailer::new`
unfoldable pub new_emailer : Mail → SmtpEmailer
new_emailer cfg = record {
  transport = record {
    host = cfg.host;
    port = cfg.port;
    credentials =
        if not (is_empty_str cfg.username) then some (cfg.username, cfg.password) else none;
  };
  from = cfg.from_name <> " <" <> cfg.from_address <> ">";
}

-- `TEMPLATES` holds one text, that of templates/password-reset.html.
module _ (password_reset : String) where
  abbrev pub template : String → Option String
  template name = if "password-reset" == name then some password_reset else none

  unfoldable pub render : String → Dict String → Result EmailerError String
  unfolding fill
  render template_name data_of = elim (template template_name) [
    | none ↦ err (template_not_found template_name)
    | some body ↦ ok (fill body data_of)
  ]

  module _ {Mailbox Message : Type 0} (lettre : Lettre Mailbox Message) (self : SmtpEmailer) where
    unfoldable pub send_html : String → String → String → Dict String → Eff EmailerError (Unit {0})
    send_html to subject template_name data_of = do
      body ← lift (render template_name data_of)
      sender ← lift (map_err address (lettre.parse self.from))
      recipient ← lift (map_err address (lettre.parse to))
      message ← lift (map_err build (lettre.body sender recipient subject body))
      on_error transport (lettre.send self.transport message)

    abbrev pub smtp_emailer : Emailer
    smtp_emailer = record {
      send_html = λ to subject template_name data_of.
          on_error emailer_text (send_html to subject template_name data_of);
    }
