-- ===== src/Errdef/Code.antt =====
-- src/package/errdef.rs, `mod code`.
use api_starter.Base.Int.{ℤ, pos}

abbrev pub validation_failed : ℤ
validation_failed = pos 1000

abbrev pub not_found : ℤ
not_found = pos 1001

abbrev pub unauthorized : ℤ
unauthorized = pos 1002

abbrev pub bad_request : ℤ
bad_request = pos 1003

abbrev pub resource_conflict : ℤ
resource_conflict = pos 1004

abbrev pub unprocessable : ℤ
unprocessable = pos 1005

abbrev pub forbidden : ℤ
forbidden = pos 1006

abbrev pub unknown : ℤ
unknown = pos 2000
