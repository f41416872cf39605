-- ===== src/Base/Dict.antt =====
-- The maps of the source (`HashMap`, `BTreeMap`) as association lists. The order in which a map is
-- walked is not modelled: a key that is new is put at the end.
use Prim.Native.String.{String}
use mathlib.Core.Path.{◌≡◌, refl}
use mathlib.Core.Option.{Option, none, some}
use mathlib.Core.List.{List, [], ◌∷◌, ◌++◌}
use native.Mathlib.Omega.{arith}
use text.Mathlib.Text.{◌==◌}
use text.Mathlib.TextEquality.{eq_iff}
use text.Mathlib.TextPositions.{eq_refl}
use api_starter.Base.Tests.{if◌then◌else◌}

abbrev pub Dict : Type 0 → Type 0
Dict V = List (String × V)

module _ {V : Type 0} where
  unfoldable pub lookup : String → Dict V → Option V
  lookup key [] = none
  lookup key ((here, value) ∷ rest) = if here == key then some value else lookup key rest

  unfoldable pub insert : String → V → Dict V → Dict V
  insert key value [] = (key, value) ∷ []
  insert key value ((here, old) ∷ rest) =
      if here == key then (here, value) ∷ rest else (here, old) ∷ insert key value rest

  unfoldable pub remove : String → Dict V → Dict V
  remove k [] = []
  remove k ((j, w) ∷ m) = if j == k then remove k m else (j, w) ∷ remove k m

  -- `entry(k).or_default().push(v)` on a map of vectors.
  unfoldable pub push : String → V → Dict (List V) → Dict (List V)
  push k v [] = (k, v ∷ []) ∷ []
  push k v ((j, w) ∷ m) = if j == k then (j, w ++ (v ∷ [])) ∷ m else (j, w) ∷ push k v m

  -- What is found after an insertion.
  pub lookup-insert :
      (new wanted : String) (value : V) (entries : Dict V)
      → lookup wanted (insert new value entries)
        ≡ (if new == wanted then some value else lookup wanted entries)
  unfolding lookup insert
  lookup-insert new wanted value [] = refl
  lookup-insert new wanted value ((here, old) ∷ rest) =
      let equalities = eq_iff here new in
      ground (
        arith,
        equalities,
        eq_iff new wanted,
        eq_iff here wanted,
        lookup-insert new wanted value rest,
      )

  pub lookup-remove :
      (k j : String) (m : Dict V) → lookup j (remove k m) ≡ (if k == j then none else lookup j m)
  unfolding lookup remove
  lookup-remove k j [] = ground arith
  lookup-remove k j ((i, w) ∷ m) =
      ground (arith, eq_iff k j, eq_iff i k, eq_iff i j, lookup-remove k j m)

module _ {V : Type 0} where
  pub remove-insert : (k : String) (v : V) (m : Dict V) → remove k (insert k v m) ≡ remove k m
  unfolding insert remove
  remove-insert k v [] = rw eq_refl
  remove-insert k v ((j, w) ∷ m) = ground (arith, remove-insert k v m)

  -- The vector at a key, empty where there is none.
  abbrev pub items : String → Dict (List V) → List V
  items k m = elim (lookup k m) [ none ↦ [] | some vs ↦ vs ]

  pub items-push :
      (k j : String) (v : V) (m : Dict (List V))
      → items j (push k v m) ≡ (if k == j then items j m ++ (v ∷ []) else items j m)
  unfolding lookup push
  items-push k j v [] = ground arith
  items-push k j v ((i, w) ∷ m) =
      ground (arith, eq_iff k j, eq_iff i k, eq_iff i j, items-push k j v m)
