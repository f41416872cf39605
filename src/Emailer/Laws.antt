-- ===== src/Emailer/Laws.antt =====
-- What the mailer sends, and when it sends nothing.
use api_starter.Base.{String, ◌≡◌, refl, ◌==◌, true, false, ok, err, map_err}
use api_starter.Base.Dict.{Dict}
use api_starter.Database.Effect.{World, on_error}
use api_starter.Database.Keeps.{Keeps, Keeps-bind, Keeps-lift, Keeps-on_error}
use api_starter.State.Accounts.{LeavesTables}
use api_starter.Emailer.{
  template_not_found, build, address, transport, emailer_text, Lettre, SmtpEmailer, fill, render,
  send_html, smtp_emailer,
}

module _ (password_reset : String) {Mailbox Message : Type 0} (lettre : Lettre Mailbox Message)
    (self : SmtpEmailer) where
  -- A mail under a name that is not that of the template, from or to an address that does not parse,
  -- or that cannot be built gives an error that says so, and nothing is sent. Otherwise exactly the
  -- message built of the sender's and the recipient's mailboxes, the subject and the filled template
  -- is handed to the transport, whose error is passed on.
  pub send_html_lem :
      (to subject name : String) (values : Dict String) (w : World)
      → let sent = send_html password_reset lettre self to subject name values w in
        (("password-reset" == name) ≡ false → sent ≡ (err (template_not_found name), w))
        × ((e : String)
            → ("password-reset" == name) ≡ true
            → lettre.parse self.from ≡ err e
            → sent ≡ (err (address e), w))
        × ((sender : Mailbox) (e : String)
            → ("password-reset" == name) ≡ true
            → lettre.parse self.from ≡ ok sender
            → lettre.parse to ≡ err e
            → sent ≡ (err (address e), w))
        × ((sender recipient : Mailbox) (e : String)
            → ("password-reset" == name) ≡ true
            → lettre.parse self.from ≡ ok sender
            → lettre.parse to ≡ ok recipient
            → lettre.body sender recipient subject (fill password_reset values) ≡ err e
            → sent ≡ (err (build e), w))
        × ((sender recipient : Mailbox) (message : Message)
            → ("password-reset" == name) ≡ true
            → lettre.parse self.from ≡ ok sender
            → lettre.parse to ≡ ok recipient
            → lettre.body sender recipient subject (fill password_reset values) ≡ ok message
            → sent ≡ on_error transport (lettre.send self.transport message) w)
  unfolding send_html render
  send_html_lem to subject name values w = (
    λ h. rw (h, render) refl,
    λ e h a. rw (h, render) (rw a refl),
    λ sender e h a b. rw (h, render) (rw a (rw b refl)),
    λ sender recipient e h a b c. rw (h, render) (rw a (rw b (rw c refl))),
    λ sender recipient message h a b c. rw (h, render) (rw a (rw b (rw c refl))),
  )

  -- The mailer leaves the tables alone if the transport does.
  pub smtp_emailer-LeavesTables :
      ((message : Message) → Keeps (lettre.send self.transport message))
      → LeavesTables (smtp_emailer password_reset lettre self)
  unfolding send_html
  smtp_emailer-LeavesTables h = record {
    sends = λ to subject name values. Keeps-on_error emailer_text (
        Keeps-bind (Keeps-lift (render password_reset name values)) λ body.
          Keeps-bind (Keeps-lift (map_err address (lettre.parse self.from))) λ sender.
            Keeps-bind (Keeps-lift (map_err address (lettre.parse to))) λ recipient.
              Keeps-bind (Keeps-lift (map_err build (lettre.body sender recipient subject body)))
                λ message. Keeps-on_error transport (h message));
  }
