-- ===== src/Tests/Unit/Passwords.antt =====
-- The tests of src/package/validation.rs, with Unicode's tables on the characters that occur. What
-- `validate` gives is written as its tree.
use api_starter.Base.Text.{trim_matches}
use api_starter.Base.Decimal.{show_ℕ}
use api_starter.Errdef.{push_violation}
use api_starter.Base.Chars.{is_ascii_digit, is_whitespace}
use api_starter.Base.{String, false, is_empty, ◌≡◌, refl, [], ◌∷◌, ok, err}
use api_starter.Base.Dict
use api_starter.Validation.{
  FieldError, field_error, ValidationErrors, done, entry, field, struct, list, end, element,
  strong_password, password_checker, to_error, message_for, push_all,
}
use api_starter.Errdef.Laws.{violations_of}
use api_starter.Tests.Fixtures.{tables}

abbrev AcceptsAStrongPassword : Type 0
AcceptsAStrongPassword = strong_password tables "Sup3r$ecret" ≡ ok tt

accepts_a_strong_password : AcceptsAStrongPassword
unfolding strong_password is_ascii_digit is_whitespace
accepts_a_strong_password = refl

abbrev RejectsAPasswordWithoutASymbol : Type 0
RejectsAPasswordWithoutASymbol =
    (strong_password tables "Sup3rsecret" ≡ err (field_error "strong-pwd"))
    × (password_checker tables "Sup3rsecret"
        ≡ err "password should contain at least one special character")

rejects_a_password_without_a_symbol : RejectsAPasswordWithoutASymbol
unfolding strong_password password_checker is_ascii_digit
rejects_a_password_without_a_symbol = (refl, refl)

abbrev ReportsEachMissingPasswordRuleSeparately : Type 0
ReportsEachMissingPasswordRuleSeparately =
    (password_checker tables "Ab1$"
      ≡ err "password is too short. It should be at least 8 characters long")
    × (password_checker tables "sup3r$ecret"
        ≡ err "password should contain at least one uppercase letter")
    × (password_checker tables "SUP3R$ECRET"
        ≡ err "password should contain at least one lowercase letter")
    × (password_checker tables "Super$ecret" ≡ err "password should contain at least one digit")
    × (password_checker tables "Sup3r$ecret" ≡ ok tt)

reports_each_missing_password_rule_separately : ReportsEachMissingPasswordRuleSeparately
unfolding password_checker is_ascii_digit is_whitespace
reports_each_missing_password_rule_separately = (refl, refl, refl, refl, refl)

abbrev one_error : String → String → ValidationErrors → ValidationErrors
one_error name code rest = entry name (field (field_error code ∷ [])) rest

abbrev length_error : String → FieldError
length_error min = record (field_error "length") { params = ("min", min) ∷ [] }

-- The name is too short, the inner address is none, and of two items the second's is none.
abbrev outer_errors : ValidationErrors
outer_errors = entry "name" (field (length_error "2" ∷ [])) (
    entry "inner" (struct (one_error "email" "email" done))
      (entry "items" (list (element 1 (one_error "email" "email" done) end)) done))

abbrev FlattensNestedAndIndexedFieldPaths : Type 0
FlattensNestedAndIndexedFieldPaths =
    let violations = violations_of (to_error outer_errors) in
    (is_empty (violations "name") ≡ false)
    × (violations "inner.email" ≡ "field must be of email format" ∷ [])
    × (is_empty (violations "items.1.email") ≡ false)
    × (violations "items.0.email" ≡ [])

flattens_nested_and_indexed_field_paths : FlattensNestedAndIndexedFieldPaths
unfolding to_error push_all push_violation Dict.lookup Dict.push show_ℕ message_for
flattens_nested_and_indexed_field_paths = (refl, refl, refl, refl)

-- Every field breaks its rule: a short token, two texts without their format, and a weak password.
abbrev rule_errors : FieldError → ValidationErrors
rule_errors weak = entry "token" (field (length_error "8" ∷ [])) (
    one_error "email" "email"
      (one_error "callback_uri" "url" (entry "password" (field (weak ∷ [])) done)))

abbrev TranslatesTheBuiltinRulesIntoReadableMessages : Type 0
TranslatesTheBuiltinRulesIntoReadableMessages =
    (weak : FieldError) × (strong_password tables "weak" ≡ err weak)
    × (let violations = violations_of (to_error (rule_errors weak)) in
        (violations "token" ≡ "field must be a minimum length of 8" ∷ [])
        × (violations "email" ≡ "field must be of email format" ∷ [])
        × (violations "callback_uri" ≡ "filed must be of URI format" ∷ [])
        × (violations "password"
            ≡ "field requires at least 8 characters with an uppercase letter, a symbol and a numeric value."
              ∷ []))

translates_the_builtin_rules_into_readable_messages : TranslatesTheBuiltinRulesIntoReadableMessages
unfolding to_error push_all push_violation Dict.lookup Dict.push message_for strong_password
    trim_matches
translates_the_builtin_rules_into_readable_messages = (_, refl, (refl, refl, refl, refl))
