-- ===== src/Pagination/Requests.antt =====
-- What every list request satisfies once it is read from a query.
use api_starter.Base.{
  String, ◌≡◌, refl, ◌⊎◌, Option, none, some, List, [], ◌∷◌, ◌==◌, eq_iff, arith, Bool, ◌||◌,
  if◌then◌else◌, unwrap_or, and_then, false,
}
use api_starter.Base.Int.{pos, ◌≤ℤ◌}
use api_starter.Base.Text.{is_empty_str}
use api_starter.Base.Dict
use api_starter.Base.Dict.{lookup-insert}
use api_starter.Pagination.{
  ListRequest, from_query, read_pairs, read_pair, normalize, filter, default_request, max_per_page,
}

pub record IsNormal (r : ListRequest) : Type 0 where
  pub first : pos 1 ≤ℤ r.page
  pub some_rows : pos 1 ≤ℤ r.per_page
  pub bounded : r.per_page ≤ℤ max_per_page
  pub direction : (r.order ≡ "asc") ⊎ (r.order ≡ "desc") ⊎ (r.order ≡ "")

normalize-IsNormal : (r : ListRequest) → IsNormal (normalize r)
unfolding normalize
normalize-IsNormal r = record {
  first = ground arith;
  some_rows = ground arith;
  bounded = ground arith;
  direction = ground (arith, eq_iff r.order "asc", eq_iff r.order "desc");
}

normalize_idem : (r : ListRequest) → IsNormal r → normalize r ≡ r
unfolding normalize
normalize_idem r h = ground (arith, eq_iff r.order "asc", eq_iff r.order "desc")

module _ (urlencoded : String → Option (List (String × String))) where
  -- Whatever the query holds, the request that is read from it has a page of at least 1, between
  -- 1 and 100 rows to a page, and the order "asc", "desc" or none; normalising it again changes
  -- nothing.
  pub from_query-IsNormal :
      (query : String)
      → IsNormal (from_query urlencoded query)
        × (normalize (from_query urlencoded query) ≡ from_query urlencoded query)
  unfolding from_query
  from_query-IsNormal query =
      let n = normalize-IsNormal (read_pairs default_request (unwrap_or [] (urlencoded query))) in
      (n, normalize_idem _ n)

-- The value that the last pair with a key gives it.
abbrev pub last_value : String → List (String × String) → Option String → Option String
last_value key [] old = old
last_value key ((k, v) ∷ pairs) old = last_value key pairs (if k == key then some v else old)

-- The names that are fields of the request and no filters.
abbrev pub is_reserved : String → Bool
is_reserved key = key == "page" || key == "per_page" || key == "sort_by" || key == "order"

lookup-read_pair :
    (r : ListRequest) (k v key : String)
    → is_reserved key ≡ false
    → Dict.lookup key (read_pair r k v).filters
      ≡ (if k == key then some v else Dict.lookup key r.filters)
unfolding read_pair
lookup-read_pair r k v key free = ground (
  arith,
  eq_iff k key,
  eq_iff k "page",
  eq_iff k "per_page",
  eq_iff k "sort_by",
  eq_iff k "order",
  eq_iff key "page",
  eq_iff key "per_page",
  eq_iff key "sort_by",
  eq_iff key "order",
  lookup-insert k key v r.filters,
)

lookup-read_pairs :
    (pairs : List (String × String)) (r : ListRequest) (key : String)
    → is_reserved key ≡ false
    → Dict.lookup key (read_pairs r pairs).filters
      ≡ last_value key pairs (Dict.lookup key r.filters)
unfolding read_pairs
lookup-read_pairs [] r key free = refl
lookup-read_pairs ((k, v) ∷ pairs) r key free =
    rw (lookup-read_pairs pairs (read_pair r k v) key free, lookup-read_pair r k v key free)

module _ (urlencoded : String → Option (List (String × String))) where
  -- A filter that is read back from a decoded query is the last value given to its name, and is
  -- absent where that value is empty, provided the name is none of the four reserved ones.
  pub filter-from_query :
      (query key : String) (pairs : List (String × String))
      → urlencoded query ≡ some pairs
      → is_reserved key ≡ false
      → filter (from_query urlencoded query) key
        ≡ and_then (λ v. if is_empty_str v then none else some v) (last_value key pairs none)
  unfolding from_query filter Dict.lookup
  filter-from_query query key pairs decoded free =
      rw decoded (rw (lookup-read_pairs pairs default_request key free))
