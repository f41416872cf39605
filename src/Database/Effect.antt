-- ===== src/Database/Effect.antt =====
-- Calls to the database, each of which may fail. The world is what the service works on: the
-- committed tables, the mails sent, and what becomes of the calls to come, in their order: `some e`
-- is a call that fails with `e` and does nothing, and once the list is used up all calls are made.
use api_starter.Base.{String, Option, none, some, List, [], ◌∷◌, Result, ok, err}
use api_starter.Base.Dict.{Dict}
use api_starter.Database.{Tables}
use api_starter.Database.Errors.{SqlError}

-- A mail handed to the transport: the recipient, the subject, the template and its data.
pub record Mail : Type 0 where
  pub to : String
  pub subject : String
  pub template : String
  pub values : Dict String

pub record World : Type 0 where
  pub tables : Tables
  pub sent : List Mail
  pub calls : List (Option SqlError)

-- What an `async` function does: a result and the world after it.
abbrev pub Eff : Type 0 → Type 0 → Type 0
Eff E A = World → Result E A × World

abbrev pub proceed : {E A B : Type 0} → Result E A × World → (A → Eff E B) → Result E B × World
proceed (ok a, w) f = f a w
proceed (err e, w) f = (err e, w)

infixl 5 ◌>>=◌ ◌>>◌
abbrev pub ◌>>=◌ : {E A B : Type 0} → Eff E A → (A → Eff E B) → Eff E B
◌>>=◌ m f w = proceed (m w) f

abbrev pub ◌>>◌ : {E B : Type 0} → Eff E (Unit {0}) → Eff E B → Eff E B
m >> k = m >>= λ _. k

abbrev pub ret : {E A : Type 0} → A → Eff E A
ret a w = (ok a, w)

-- A result that needs no call.
abbrev pub lift : {E A : Type 0} → Result E A → Eff E A
lift r w = (r, w)

abbrev pub recast : {E F A : Type 0} → (E → F) → Result E A × World → Result F A × World
recast f (ok a, w) = (ok a, w)
recast f (err e, w) = (err (f e), w)

-- `map_err`
abbrev pub on_error : {E F A : Type 0} → (E → F) → Eff E A → Eff F A
on_error f m w = recast f (m w)

-- What becomes of the next call, and the calls after it.
abbrev pub fault : List (Option SqlError) → Option SqlError
fault [] = none
fault (c ∷ calls) = c

abbrev later : List (Option SqlError) → List (Option SqlError)
later [] = []
later (c ∷ calls) = calls

abbrev pub tick : World → World
tick w = record w { calls = later w.calls }

abbrev settle : {A : Type 0} → Option SqlError → Result SqlError A → Result SqlError A
settle none r = r
settle (some e) r = err e

abbrev store : {A : Type 0} → World → Result SqlError (A × Tables) → Result SqlError A × World
store w (ok (a, t)) = (ok a, record w { tables = t })
store w (err e) = (err e, w)

-- A statement on the pool that reads the committed tables.
unfoldable pub query : {A : Type 0} → (Tables → Result SqlError A) → Eff SqlError A
query f w = (settle (fault w.calls) (f w.tables), tick w)

-- A statement on the pool that changes them.
unfoldable pub execute : {A : Type 0} → (Tables → Result SqlError (A × Tables)) → Eff SqlError A
execute f w = store (tick w) (settle (fault w.calls) (f w.tables))

-- A transaction works on a copy of the tables, which `commit` puts in their place. Dropped, it
-- leaves no trace.
unfoldable pub begin : Eff SqlError Tables
begin w = (settle (fault w.calls) (ok w.tables), tick w)

unfoldable pub execute_in : Tables → (Tables → Result SqlError Tables) → Eff SqlError Tables
execute_in tx f w = (settle (fault w.calls) (f tx), tick w)

unfoldable pub commit : Tables → Eff SqlError (Unit {0})
commit tx w = store (tick w) (settle (fault w.calls) (ok (tt, tx)))

-- A world in which no call fails.
abbrev pub calm : Tables → List Mail → World
calm t sent = record { tables = t; sent = sent; calls = [] }
