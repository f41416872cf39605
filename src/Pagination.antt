-- ===== src/Pagination.antt =====
-- src/package/pagination.rs: list requests and the page envelope. The integers are `i64`, with the
-- arithmetic of a release build, which wraps.
pub mod Requests
pub mod Windows
pub mod Pages
use api_starter.Base.{
  ℕ, String, Bool, not, ◌&&◌, ◌||◌, Option, none, some, List, [], ◌∷◌, map, ◌==◌, if◌then◌else◌,
  unwrap_or, and_then, arith,
}
use api_starter.Base.Int.{
  ℤ, pos, ltb_ℤ, leb_ℤ, int_eq, pos_part, add_i64, sub_i64, mul_i64, div_i64, rem_i64, wrap, ◌+ℤ◌,
  ◌-ℤ◌, ◌*ℤ◌,
}
use api_starter.Base.Text.{is_empty_str}
use api_starter.Base.Dict
use api_starter.Base.Dict.{Dict}
use api_starter.Base.Decimal.{parse_i64}

abbrev pub default_per_page : ℤ
default_per_page = pos 10

abbrev pub max_per_page : ℤ
max_per_page = pos 100

pub record ListRequest : Type 0 where
  pub page : ℤ
  pub per_page : ℤ
  pub sort_by : String
  pub order : String
  pub filters : Dict String

-- `ListRequest::default`
abbrev pub default_request : ListRequest
default_request = record {
  page = pos 1;
  per_page = default_per_page;
  sort_by = "";
  order = "";
  filters = [];
}

-- One round of the loop of `from_query`.
unfoldable pub read_pair : ListRequest → String → String → ListRequest
read_pair r key value =
    if key == "page"
    then record r { page = unwrap_or (pos 1) (parse_i64 value) }
    else if key == "per_page"
    then record r { per_page = unwrap_or default_per_page (parse_i64 value) }
    else if key == "sort_by"
    then record r { sort_by = value }
    else if key == "order"
    then record r { order = value }
    else record r { filters = Dict.insert key value r.filters }

unfoldable pub read_pairs : ListRequest → List (String × String) → ListRequest
read_pairs r [] = r
read_pairs r ((key, value) ∷ pairs) = read_pairs (read_pair r key value) pairs

unfoldable pub normalize : ListRequest → ListRequest
normalize r = record r {
  page = if ltb_ℤ r.page (pos 1) then pos 1 else r.page;
  per_page =
      if ltb_ℤ r.per_page (pos 1) || ltb_ℤ max_per_page r.per_page
      then default_per_page
      else r.per_page;
  order = if not (r.order == "asc") && not (r.order == "desc") then "" else r.order;
}

-- `urlencoded` is `serde_urlencoded::from_str`, `none` where it fails.
module _ (urlencoded : String → Option (List (String × String))) where
  unfoldable pub from_query : String → ListRequest
  unfolding normalize
  from_query query = normalize (read_pairs default_request (unwrap_or [] (urlencoded query)))

  -- The extractor: a request with no query reads the empty text.
  unfoldable pub from_request_parts : Option String → ListRequest
  from_request_parts query = from_query (unwrap_or "" query)

unfoldable pub offset : ListRequest → ℤ
offset r = mul_i64 (sub_i64 r.page (pos 1)) r.per_page

-- `ListRequest::filter`: a filter with an empty value counts as absent.
unfoldable pub filter : ListRequest → String → Option String
filter r key = and_then (λ v. if is_empty_str v then none else some v) (Dict.lookup key r.filters)

pub record MetaData : Type 0 where
  pub total_count : ℤ
  pub total_pages : ℤ
  pub current_page : ℤ
  pub per_page : ℤ
  pub next_page : Option ℤ
  pub previous_page : Option ℤ

-- The struct `Data<T>`.
pub record Page (T : Type 0) : Type 0 where
  pub rows : List T
  pub meta : MetaData

-- `Option::filter` on a page number.
abbrev when : Bool → ℤ → Option ℤ
when b a = if b then some a else none

-- The number of pages that `Data::new` computes; the divisor is at least 1.
unfoldable pub total_pages_of : ℤ → ℕ → ℤ
total_pages_of total_count per_page =
    if not (int_eq (rem_i64 total_count per_page) (pos 0))
    then add_i64 (div_i64 total_count per_page) (pos 1)
    else div_i64 total_count per_page

unfoldable pub next_of : ℤ → ℤ → Option ℤ
next_of current_page total_pages =
    let next = add_i64 current_page (pos 1) in when (leb_ℤ next total_pages) next

unfoldable pub previous_of : ℤ → ℤ → Option ℤ
previous_of current_page total_pages =
    let previous = sub_i64 current_page (pos 1) in
    when (leb_ℤ (pos 1) previous && leb_ℤ previous total_pages) previous

-- The metadata that `Data::new` computes.
unfoldable pub new_meta : ℤ → ℤ → ℤ → MetaData
new_meta total_count current_page asked =
    let per_page : ℤ = if leb_ℤ (pos 1) asked then asked else pos 1 in
    let total_pages = total_pages_of total_count (pos_part per_page) in
    record {
      total_count = total_count;
      total_pages = total_pages;
      current_page = current_page;
      per_page = per_page;
      next_page = next_of current_page total_pages;
      previous_page = previous_of current_page total_pages;
    }

module _ {T : Type 0} where
  -- `Data::new`
  unfoldable pub new_page : List T → ℤ → ℤ → ℤ → Page T
  unfolding new_meta
  new_page rows total_count current_page per_page = record {
    rows = rows;
    meta = new_meta total_count current_page per_page;
  }

-- `Data::map`
abbrev pub map_page : {T U : Type 0} → (T → U) → Page T → Page U
map_page f p = record { rows = map f p.rows; meta = p.meta }
