-- ===== src/Config/Names.antt =====
-- How a log level and an environment are written.
use api_starter.Base.{String, ◌≡◌, ◌↔◌, ◌⊎◌, inl, inr, refl, some, arith, eq_iff}
use api_starter.Base.Text.{trim}
use api_starter.Env.{to_ascii_lowercase}
use api_starter.Config.Settings.{
  LogLevel, trace, debug, info, warn, error, level_text, parse_level, Environment, local,
  development, production, environment_text, parse_environment,
}

-- What a text is read by.
abbrev pub name_of : String → String
name_of s = to_ascii_lowercase (trim s)

from_level :
    (s : String) (l : LogLevel)
    → parse_level s ≡ some l
    → (name_of s ≡ level_text l) ⊎ ((l ≡ warn) × (name_of s ≡ "warning"))
unfolding parse_level
from_level s l h = ground (
  arith,
  h,
  eq_iff (name_of s) "trace",
  eq_iff (name_of s) "debug",
  eq_iff (name_of s) "info",
  eq_iff (name_of s) "warn",
  eq_iff (name_of s) "warning",
  eq_iff (name_of s) "error",
)

from_environment :
    (s : String) (e : Environment) → parse_environment s ≡ some e → name_of s ≡ environment_text e
unfolding parse_environment
from_environment s e h = ground (
  arith,
  h,
  eq_iff (name_of s) "local",
  eq_iff (name_of s) "development",
  eq_iff (name_of s) "production",
)

level_back : (s : String) (l : LogLevel) → name_of s ≡ level_text l → parse_level s ≡ some l
unfolding parse_level
level_back s trace h = rw h refl
level_back s debug h = rw h refl
level_back s info h = rw h refl
level_back s warn h = rw h refl
level_back s error h = rw h refl

environment_back :
    (s : String) (e : Environment) → name_of s ≡ environment_text e → parse_environment s ≡ some e
unfolding parse_environment
environment_back s local h = rw h refl
environment_back s development h = rw h refl
environment_back s production h = rw h refl

level_reads : (l : LogLevel) → name_of (level_text l) ≡ level_text l
unfolding to_ascii_lowercase trim
level_reads trace = refl
level_reads debug = refl
level_reads info = refl
level_reads warn = refl
level_reads error = refl

environment_reads : (e : Environment) → name_of (environment_text e) ≡ environment_text e
unfolding to_ascii_lowercase trim
environment_reads local = refl
environment_reads development = refl
environment_reads production = refl

to_level :
    (s : String) (l : LogLevel)
    → (name_of s ≡ level_text l) ⊎ ((l ≡ warn) × (name_of s ≡ "warning"))
    → parse_level s ≡ some l
unfolding parse_level
to_level s l (inl h) = level_back s l h
to_level s l (inr (e, h)) = rw (h, e) refl

-- A log level and an environment are read back from the names that they print as, and are read, but
-- for case and the blanks around, from no other texts, except that `warning` too is the level `warn`.
pub names_lem :
    ((l : LogLevel) → parse_level (level_text l) ≡ some l)
    × ((e : Environment) → parse_environment (environment_text e) ≡ some e)
    × ((s : String) (l : LogLevel)
        → (parse_level s ≡ some l)
          ↔ ((name_of s ≡ level_text l) ⊎ ((l ≡ warn) × (name_of s ≡ "warning"))))
    × ((s : String) (e : Environment)
        → (parse_environment s ≡ some e) ↔ (name_of s ≡ environment_text e))
unfolding parse_level parse_environment
names_lem = (
  λ l. level_back (level_text l) l (level_reads l),
  λ e. environment_back (environment_text e) e (environment_reads e),
  λ s l. (from_level s l, to_level s l),
  λ s e. (from_environment s e, environment_back s e),
)
