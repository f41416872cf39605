-- ===== src/Database/Errors.antt =====
-- src/database/mod.rs, `mod pg_error`.
use api_starter.Base.{String, Bool, false, Option, none, some, ◌==◌}

-- `sqlx::Error`: one that the server reports, with its code, constraint and text, or any other.
pub data SqlError : Type 0 where
  database : Option String → Option String → String → SqlError
  other : String → SqlError

-- `Display`
abbrev pub sql_text : SqlError → String
sql_text (database code constraint text) = text
sql_text (other text) = text

abbrev pub unique_violation : String
unique_violation = "23505"

abbrev pub not_null_violation : String
not_null_violation = "23502"

abbrev pub foreign_key_violation : String
foreign_key_violation = "23503"

abbrev pub code_of : SqlError → Option String
code_of (database code constraint text) = code
code_of (other text) = none

abbrev pub constraint_of : SqlError → Option String
constraint_of (database code constraint text) = constraint
constraint_of (other text) = none

-- `pg_error::is`
abbrev pub has_code : SqlError → String → Bool
has_code e code = elim (code_of e) [ none ↦ false | some actual ↦ actual == code ]
