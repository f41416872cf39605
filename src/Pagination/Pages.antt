-- ===== src/Pagination/Pages.antt =====
-- The page numbers of the envelope.
use api_starter.Base.{
  ℕ, suc, ◌+◌, ◌-◌, ◌*◌, ◌/◌, ◌%◌, ◌≤◌, ◌<◌, ◌≡◌, some, none, arith, if◌then◌else◌, nat_eq, leb,
  ◌&&◌, Bool-cases, inl, inr,
}
use native.Mathlib.Nat.{div-add-mod', mod-lt, div-le_self}
use api_starter.Base.Int.{ℤ, pos, i64_min, i64_max, wrap_of_small, wrap_of_large, pos-add, pos-sub}
use api_starter.Pagination.{new_meta, total_pages_of, next_of, previous_of}

-- The number of pages of `n` rows that `t` rows fill.
abbrev pub pages_for : ℕ → ℕ → ℕ
pages_for t n = if nat_eq (t % n) 0 then t / n else t / n + 1

pages_for_bounds : (t n : ℕ) → 1 ≤ n → (t ≤ pages_for t n * n) × (pages_for t n * n < t + n)
pages_for_bounds t n h = elim (Bool-cases (nat_eq (t % n) 0)) [
  | inl whole ↦ rw whole (ground (arith, div-add-mod' t n), ground (arith, div-add-mod' t n))
  | inr part ↦
      rw part
        (grind (arith, div-add-mod' t n, mod-lt t h), grind (arith, div-add-mod' t n, mod-lt t h))
]

total_pages_of_lem :
    (t n : ℕ) → 1 ≤ n → t ≤ 9223372036854775806 → total_pages_of (pos t) n ≡ pos (pages_for t n)
unfolding total_pages_of
total_pages_of_lem t n rows small =
    ground (arith, div-le_self t n, pos-add (t / n) 1, wrap_of_small (t / n + 1))

next_of_lem :
    (c k : ℕ)
    → c ≤ 9223372036854775806
    → next_of (pos c) (pos k) ≡ (if leb (c + 1) k then some (pos (c + 1)) else none)
unfolding next_of
next_of_lem c k near = ground (arith, pos-add c 1, wrap_of_small (c + 1))

previous_of_lem :
    (c k : ℕ)
    → c ≤ 9223372036854775806
    → previous_of (pos (suc c)) (pos k) ≡ (if leb 1 c && leb c k then some (pos c) else none)
unfolding previous_of
previous_of_lem c k near =
    let e : suc c - 1 ≡ c = omega arith in
    rw (pos-sub (suc c) 1 (omega arith), e) (rw (wrap_of_small c (omega arith)) (ground arith))

pages_for-le : (t n : ℕ) → 1 ≤ n → pages_for t n ≤ t
pages_for-le t n h = grind (arith, (pages_for_bounds t n h).1)

pub new_meta-total_pages :
    (t n : ℕ) (c : ℤ)
    → 1 ≤ n
    → t ≤ 9223372036854775806
    → (k : ℕ) × ((new_meta (pos t) c (pos n)).total_pages ≡ pos k)
      × (k ≤ t)
      × (t ≤ k * n)
      × (k * n < t + n)
unfolding new_meta
new_meta-total_pages t n c rows small =
    let size : (if leb 1 (n + 0) then pos n else pos 1) ≡ pos n = ground arith in
    (
      pages_for t n,
      rw size (total_pages_of_lem t n rows small),
      pages_for-le t n rows,
      (pages_for_bounds t n rows).0,
      (pages_for_bounds t n rows).1,
    )

-- The metadata of page `c`, for a total of `t` rows and `n` rows to a page, below the limit of
-- `i64`: the number of pages is the least that holds all rows; the next page is given exactly
-- where it is at most the last page, and the previous one where it is at least 1 and at most the
-- last page.
pub new_meta_links :
    (t c n : ℕ)
    → 1 ≤ n
    → t ≤ 9223372036854775806
    → suc c ≤ 9223372036854775806
    → let m = new_meta (pos t) (pos (suc c)) (pos n) in
      (k : ℕ) × (m.total_pages ≡ pos k)
      × (t ≤ k * n)
      × (k * n < t + n)
      × (m.next_page ≡ (if leb (c + 2) k then some (pos (c + 2)) else none))
      × (m.previous_page ≡ (if leb 1 c && leb c k then some (pos c) else none))
unfolding new_meta
new_meta_links t c n rows small near =
    let total = total_pages_of_lem t n rows small in
    let size : (if leb 1 (n + 0) then pos n else pos 1) ≡ pos n = ground arith in
    (
      pages_for t n,
      rw size total,
      (pages_for_bounds t n rows).0,
      (pages_for_bounds t n rows).1,
      rw (size, total, next_of_lem (suc c) (pages_for t n) near) (ground arith),
      rw (size, total) (previous_of_lem c (pages_for t n) (omega arith)),
    )

-- On the last page number that `i64` has, the next page wraps to the least `i64`, and since that
-- is below every number of pages it is given as a link.
pub next_page-overflow :
    (t n : ℕ)
    → 1 ≤ n
    → t ≤ 9223372036854775806
    → (new_meta (pos t) i64_max (pos n)).next_page ≡ some i64_min
unfolding new_meta next_of
next_page-overflow t n rows small =
    let size : (if leb 1 (n + 0) then pos n else pos 1) ≡ pos n = ground arith in
    rw (size, total_pages_of_lem t n rows small, pos-add 9223372036854775807 1)
      (rw (wrap_of_large 9223372036854775808 (omega arith) (omega arith)) (ground arith))
