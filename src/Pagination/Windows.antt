-- ===== src/Pagination/Windows.antt =====
-- The window of rows that a request selects by LIMIT and OFFSET.
use api_starter.Base.{
  ℕ, zero, suc, ◌+◌, ◌-◌, ◌*◌, ◌^◌, ◌≤◌, ◌<◌, ◌≡◌, refl, List, [], ◌∷◌, ◌++◌, arith, ap, take, drop,
  length,
}
use api_starter.Base.Int.{
  ℤ, pos, negsuc, pos_part, ◌≤ℤ◌, wrap_of_small, wrap_of_large, pos-sub, pos-mul,
}
use Prim.Native.Nat.add
use api_starter.Pagination.{ListRequest, offset, new_meta}
use api_starter.Pagination.Pages.{new_meta-total_pages}

-- Where the product fits, OFFSET is the number of rows on the pages before.
pub offset_exact :
    (r : ListRequest) (p n : ℕ)
    → r.page ≡ pos (suc p)
    → r.per_page ≡ pos n
    → p ≤ 9223372036854775806
    → p * n ≤ 9223372036854775807
    → offset r ≡ pos (p * n)
unfolding offset
offset_exact r p n paged sized h fits =
    rw (paged, sized, pos-sub (suc p) 1 (omega arith))
      (let e : suc p - 1 ≡ p = omega arith in
        rw (e, wrap_of_small p (omega arith), pos-mul p n, wrap_of_small (p * n) fits))

-- Past the limit of `i64` the product wraps: where it lies between 2^63 and 2^64, the OFFSET that
-- is sent to the database is negative.
pub offset-overflow :
    (r : ListRequest) (p n : ℕ)
    → r.page ≡ pos (suc p)
    → r.per_page ≡ pos n
    → p ≤ 9223372036854775806
    → 2 ^ 63 ≤ p * n
    → p * n < 2 ^ 64
    → offset r ≤ℤ negsuc 0
unfolding offset
offset-overflow r p n paged sized h over under =
    rw (paged, sized, pos-sub (suc p) 1 (omega arith))
      (let e : suc p - 1 ≡ p = omega arith in
        rw (e, wrap_of_small p (omega arith), pos-mul p n, wrap_of_large (p * n) over under)
          (omega arith))

-- LIMIT and OFFSET on the rows that a query selects, in its order.
abbrev pub window : {T : Type 0} → List T → ListRequest → List T
window rows r = take (pos_part r.per_page) (drop (pos_part (offset r)) rows)

-- The windows of the first `k` pages, one after the other.
abbrev pub first_pages : {T : Type 0} → List T → ListRequest → ℕ → List T
first_pages rows r zero = []
first_pages rows r (suc k) = first_pages rows r k ++ window rows (record r { page = pos (suc k) })

module _ {T : Type 0} where
  take_nil : (n : ℕ) → take {A = T} n [] ≡ []
  take_nil zero = refl
  take_nil (suc n) = refl

  take-append-take-drop :
      (a n : ℕ) (rows : List T) → take a rows ++ take n (drop a rows) ≡ take (a + n) rows
  take-append-take-drop zero n rows = rw add.zero
  take-append-take-drop (suc a) n [] = rw add.suc (take_nil n)
  take-append-take-drop (suc a) n (x ∷ rows) =
      rw add.suc (ap (λ t. x ∷ t) (take-append-take-drop a n rows))

  take_all : (n : ℕ) (rows : List T) → length rows ≤ n → take n rows ≡ rows
  take_all zero [] h = refl
  take_all zero (x ∷ rows) h = absurd (omega arith)
  take_all (suc n) [] h = refl
  take_all (suc n) (x ∷ rows) h = ap (λ t. x ∷ t) (take_all n rows (omega arith))

  first_pages_lem :
      (rows : List T) (r : ListRequest) (n k : ℕ)
      → r.per_page ≡ pos n
      → k ≤ 9223372036854775806
      → k * n ≤ 9223372036854775807 + n
      → first_pages rows r k ≡ take (k * n) rows
  first_pages_lem rows r n zero sized h fits = let e : zero * n ≡ 0 = omega arith in rw e
  first_pages_lem rows r n (suc k) sized h fits =
      let e : suc k * n ≡ k * n + n = omega arith in
      rw
        (
          first_pages_lem rows r n k sized (omega arith) (omega (arith, e)),
          offset_exact (record r { page = pos (suc k) }) k n refl sized (omega arith)
              (omega (arith, e)),
          sized,
          e,
        )
        (take-append-take-drop (k * n) n rows)

  -- Paging through a list shows every row once and in order: the windows of all pages, as many as
  -- the metadata counts for the list's length, make up the list again.
  pub first_pages_total :
      (rows : List T) (r : ListRequest) (c : ℤ) (n : ℕ)
      → r.per_page ≡ pos n
      → 1 ≤ n
      → length rows ≤ 9223372036854775806
      → first_pages rows r (pos_part (new_meta (pos (length rows)) c (pos n)).total_pages) ≡ rows
  first_pages_total rows r c n sized some_rows small =
      let (k, total, few, enough, tight) = new_meta-total_pages (length rows) n c some_rows small in
      rw (total, first_pages_lem rows r n k sized (omega arith) (omega arith))
        (take_all (k * n) rows enough)
