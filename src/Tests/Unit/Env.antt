-- ===== src/Tests/Unit/Env.antt =====
-- The tests of src/package/env.rs. Each sets its own variables.
use api_starter.Base.Decimal.{parse_unsigned, parse_i64}
use api_starter.Base.Text.{trim, split}
use api_starter.Base.{
  String, ◌≡◌, ◌==◌, refl, true, false, Option, none, some, [], ◌∷◌, Result, ok, err, All,
  if◌then◌else◌,
}
use api_starter.Base.Int.{pos, negsuc}
use api_starter.Base.Dict
use api_starter.Base.Dict.{Dict}
use api_starter.Env.{
  missing, invalid, string, string_or, required, u16, u16_or, u32, u32_or, i64, i64_or, boolean,
  boolean_or, vec, vec_or, parsed_or, to_ascii_lowercase, parsed,
}

-- The environment in which variables are set.
abbrev vars : Dict String → String → Option String
vars set key = Dict.lookup key set

abbrev one : String → String → String → Option String
one key value = vars ((key, value) ∷ [])

abbrev unset : String → Option String
unset = vars []

-- `is_err`
abbrev IsErr : {E A : Type 0} → Result E A → Type 0
IsErr {E} r = (e : E) × (r ≡ err e)

abbrev ReadsAStringAndTrimsIt : Type 0
ReadsAStringAndTrimsIt = string (one "ENV_TEST_STRING" "  hello  ") "ENV_TEST_STRING" ≡ some "hello"

reads_a_string_and_trims_it : ReadsAStringAndTrimsIt
unfolding string Dict.lookup trim
reads_a_string_and_trims_it = refl

abbrev ABlankStringCountsAsUnset : Type 0
ABlankStringCountsAsUnset =
    let var = one "ENV_TEST_BLANK" "   " in
    (string var "ENV_TEST_BLANK" ≡ none) × (string_or var "ENV_TEST_BLANK" "fallback" ≡ "fallback")

a_blank_string_counts_as_unset : ABlankStringCountsAsUnset
unfolding string string_or Dict.lookup trim
a_blank_string_counts_as_unset = (refl, refl)

abbrev AnUnsetStringFallsBack : Type 0
AnUnsetStringFallsBack =
    (string unset "ENV_TEST_ABSENT" ≡ none)
    × (string_or unset "ENV_TEST_ABSENT" "fallback" ≡ "fallback")

an_unset_string_falls_back : AnUnsetStringFallsBack
unfolding string string_or Dict.lookup
an_unset_string_falls_back = (refl, refl)

abbrev ARequiredVariableReportsTheKeyItIsMissing : Type 0
ARequiredVariableReportsTheKeyItIsMissing =
    required unset "ENV_TEST_REQUIRED" ≡ err (missing "ENV_TEST_REQUIRED")

a_required_variable_reports_the_key_it_is_missing : ARequiredVariableReportsTheKeyItIsMissing
unfolding required string Dict.lookup
a_required_variable_reports_the_key_it_is_missing = refl

abbrev ReadsEachNumberAtTheWidthItWasAskedFor : Type 0
ReadsEachNumberAtTheWidthItWasAskedFor =
    let var =
      vars
        (("ENV_TEST_PORT", "8080") ∷ ("ENV_TEST_POOL", "25") ∷ ("ENV_TEST_TTL", "-604800") ∷ []) in
    (u16 var "ENV_TEST_PORT" ≡ ok (some 8080))
    × (u16_or var "ENV_TEST_PORT" 3000 ≡ ok 8080)
    × (u16_or var "ENV_TEST_NO_PORT" 3000 ≡ ok 3000)
    × (u32 var "ENV_TEST_POOL" ≡ ok (some 25))
    × (u32_or var "ENV_TEST_NO_POOL" 10 ≡ ok 10)
    × (i64 var "ENV_TEST_TTL" ≡ ok (some (negsuc 604799)))
    × (i64_or var "ENV_TEST_NO_TTL" (pos 3600) ≡ ok (pos 3600))

reads_each_number_at_the_width_it_was_asked_for : ReadsEachNumberAtTheWidthItWasAskedFor
unfolding string Dict.lookup parsed trim parse_unsigned u16_or parsed_or u32_or parse_i64 i64_or
reads_each_number_at_the_width_it_was_asked_for = (refl, refl, refl, refl, refl, refl, refl)

abbrev ANumberThatDoesNotFitTheWidthIsRejected : Type 0
ANumberThatDoesNotFitTheWidthIsRejected =
    let var = vars (("ENV_TEST_WIDE_PORT", "70000") ∷ ("ENV_TEST_NEGATIVE_POOL", "-1") ∷ []) in
    IsErr (u16 var "ENV_TEST_WIDE_PORT")
    × IsErr (u32 var "ENV_TEST_NEGATIVE_POOL")
    × (i64 var "ENV_TEST_NEGATIVE_POOL" ≡ ok (some (negsuc 0)))

a_number_that_does_not_fit_the_width_is_rejected : ANumberThatDoesNotFitTheWidthIsRejected
unfolding string Dict.lookup parsed trim parse_unsigned parse_i64
a_number_that_does_not_fit_the_width_is_rejected = ((_, refl), (_, refl), refl)

abbrev AnUnparseableValueIsAnErrorNotAFallback : Type 0
AnUnparseableValueIsAnErrorNotAFallback =
    let var = one "ENV_TEST_BAD_PORT" "eighty" in
    (u16 var "ENV_TEST_BAD_PORT" ≡ err (invalid "ENV_TEST_BAD_PORT" "eighty"))
    × IsErr (u16_or var "ENV_TEST_BAD_PORT" 3000)

an_unparseable_value_is_an_error_not_a_fallback : AnUnparseableValueIsAnErrorNotAFallback
unfolding string Dict.lookup parsed trim parse_unsigned u16_or parsed_or
an_unparseable_value_is_an_error_not_a_fallback = (refl, (_, refl))

-- The enum of the next test, and its `from_str`.
data Level : Type 0 where
  info : Level
  error : Level

abbrev level_from_str : String → Option Level
level_from_str value =
    if to_ascii_lowercase value == "info"
    then some info
    else if to_ascii_lowercase value == "error"
    then some error
    else none

abbrev ANamedVariantFallsBackToItsOwnDefault : Type 0
ANamedVariantFallsBackToItsOwnDefault =
    let var = vars (("ENV_TEST_LEVEL", "ERROR") ∷ ("ENV_TEST_BAD_LEVEL", "chatty") ∷ []) in
    (parsed_or var level_from_str "ENV_TEST_LEVEL" info ≡ ok error)
    × (parsed_or var level_from_str "ENV_TEST_NO_LEVEL" info ≡ ok info)
    × IsErr (parsed_or var level_from_str "ENV_TEST_BAD_LEVEL" info)

a_named_variant_falls_back_to_its_own_default : ANamedVariantFallsBackToItsOwnDefault
unfolding string Dict.lookup parsed_or parsed trim to_ascii_lowercase
a_named_variant_falls_back_to_its_own_default = (refl, refl, (_, refl))

abbrev ReadsTheBooleanSpellingsPeopleActuallyWrite : Type 0
ReadsTheBooleanSpellingsPeopleActuallyWrite =
    All (λ truthy. boolean (one "ENV_TEST_BOOLEAN" truthy) "ENV_TEST_BOOLEAN" ≡ ok (some true))
      ("1" ∷ "t" ∷ "true" ∷ "TRUE" ∷ "y" ∷ "yes" ∷ "on" ∷ [])
    × All (λ falsy. boolean (one "ENV_TEST_BOOLEAN" falsy) "ENV_TEST_BOOLEAN" ≡ ok (some false))
        ("0" ∷ "f" ∷ "false" ∷ "FALSE" ∷ "n" ∷ "no" ∷ "off" ∷ [])

reads_the_boolean_spellings_people_actually_write : ReadsTheBooleanSpellingsPeopleActuallyWrite
unfolding string Dict.lookup boolean parsed trim to_ascii_lowercase
reads_the_boolean_spellings_people_actually_write = (
  (refl, (refl, (refl, (refl, (refl, (refl, (refl, tt))))))),
  (refl, (refl, (refl, (refl, (refl, (refl, (refl, tt))))))),
)

abbrev AnUnparseableBooleanIsAnError : Type 0
AnUnparseableBooleanIsAnError =
    let var = one "ENV_TEST_BAD_BOOLEAN" "maybe" in
    IsErr (boolean var "ENV_TEST_BAD_BOOLEAN")
    × IsErr (boolean_or var "ENV_TEST_BAD_BOOLEAN" true)
    × (boolean_or var "ENV_TEST_NO_BOOLEAN" true ≡ ok true)

an_unparseable_boolean_is_an_error : AnUnparseableBooleanIsAnError
unfolding string Dict.lookup boolean parsed trim to_ascii_lowercase boolean_or
an_unparseable_boolean_is_an_error = ((_, refl), (_, refl), refl)

abbrev SplitsAListAndDropsTheEmptyEntries : Type 0
SplitsAListAndDropsTheEmptyEntries =
    vec (one "ENV_TEST_ORIGINS" " http://a.test , ,http://b.test ") "ENV_TEST_ORIGINS"
    ≡ some ("http://a.test" ∷ "http://b.test" ∷ [])

splits_a_list_and_drops_the_empty_entries : SplitsAListAndDropsTheEmptyEntries
unfolding string Dict.lookup vec trim split
splits_a_list_and_drops_the_empty_entries = refl

abbrev ASingleEntryIsStillAList : Type 0
ASingleEntryIsStillAList =
    vec (one "ENV_TEST_ONE_ORIGIN" "http://only.test") "ENV_TEST_ONE_ORIGIN"
    ≡ some ("http://only.test" ∷ [])

a_single_entry_is_still_a_list : ASingleEntryIsStillAList
unfolding string Dict.lookup vec trim split
a_single_entry_is_still_a_list = refl

abbrev AListOfNothingButSeparatorsFallsBack : Type 0
AListOfNothingButSeparatorsFallsBack =
    let var = one "ENV_TEST_EMPTY_VEC" "  ,  " in
    (vec var "ENV_TEST_EMPTY_VEC" ≡ none) × (vec_or var "ENV_TEST_EMPTY_VEC" ("*" ∷ []) ≡ "*" ∷ [])

a_list_of_nothing_but_separators_falls_back : AListOfNothingButSeparatorsFallsBack
unfolding string Dict.lookup vec trim split vec_or
a_list_of_nothing_but_separators_falls_back = (refl, refl)
