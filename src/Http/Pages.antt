-- ===== src/Http/Pages.antt =====
-- A list that is read page by page.
use learn_nestjs.Common.{
  ℕ, suc, ◌+◌, ◌-◌, ◌*◌, ◌/◌, ◌≤◌, ◌≡◌, refl, sym, ap, ◌∙◌, Bool, true, false, not, List, [], ◌∷◌,
  ◌++◌, ltb, arith,
}
use learn_nestjs.Common.Lists.{length}
use mathlib.Core.List.{append_assoc, append-nil}
use learn_nestjs.Http.Paging.{
  Parameter, Options, PrismaPage, PaginatedResult, max_limit, at_least_one, normalize, to_prisma,
  ceil_div, paginate,
}
use native.Mathlib.Nat.{le-div_iff_mul-le, suc-mul, zero-mul, mul_comm, mul-div_cancel}
use native.Mathlib.Omega.{div_any}

-- `Math.ceil` counts the pages that begin within the rows.
pub ltb-ceil_div :
    (p total limit : ℕ) → 1 ≤ limit → ltb p (ceil_div total limit) ≡ ltb (p * limit) total
unfolding ceil_div
ltb-ceil_div p total limit h = ground (
  arith,
  le-div_iff_mul-le {k = limit} {x = p} {y = total} h,
  le-div_iff_mul-le {k = limit} {x = suc p} {y = total} h,
  suc-mul p limit,
  div_any total limit,
  mul_comm limit (total / limit),
  mul-div_cancel p h,
)

module _ {A : Type 0} where
  unfoldable pub front : ℕ → List A → List A
  front ℕ.zero xs = []
  front (ℕ.suc n) [] = []
  front (ℕ.suc n) (x ∷ xs) = x ∷ front n xs

  unfoldable pub behind : ℕ → List A → List A
  behind ℕ.zero xs = xs
  behind (ℕ.suc n) [] = []
  behind (ℕ.suc n) (x ∷ xs) = behind n xs

  -- What a query with `skip` and `take` answers on ordered rows.
  abbrev pub rows_at : PrismaPage → List A → List A
  rows_at p xs = front p.take (behind p.skip xs)

  -- A handler that reads a page of the rows.
  unfoldable pub read_page : List A → Options → PaginatedResult A
  unfolding to_prisma paginate
  read_page xs o = paginate (rows_at (to_prisma o) xs) (length xs) o

  -- The rows of the first `n` pages, one after the other.
  unfoldable pub first_pages : List A → ℕ → ℕ → List A
  unfolding read_page
  first_pages xs limit ℕ.zero = []
  first_pages xs limit (ℕ.suc n) =
      first_pages xs limit n ++ (read_page xs (record { page = suc n; limit = limit })).rows

  front-append-behind : (n : ℕ) (xs : List A) → front n xs ++ behind n xs ≡ xs
  unfolding front behind
  front-append-behind ℕ.zero xs = refl
  front-append-behind (ℕ.suc n) [] = refl
  front-append-behind (ℕ.suc n) (x ∷ xs) = ap (λ ys. x ∷ ys) (front-append-behind n xs)

  abbrev pub is_none : List A → Bool
  is_none [] = true
  is_none (x ∷ xs) = false

  behind_nil : (n : ℕ) → behind n [] ≡ []
  unfolding behind
  behind_nil ℕ.zero = refl
  behind_nil (ℕ.suc n) = refl

  behind-behind : (m n : ℕ) (xs : List A) → behind m (behind n xs) ≡ behind (n + m) xs
  unfolding behind
  behind-behind m ℕ.zero xs = let e : m ≡ 0 + m = omega arith in ap (λ k. behind k xs) e
  behind-behind m (ℕ.suc n) (x ∷ xs) =
      let e : suc (n + m) ≡ suc n + m = omega arith in
      behind-behind m n xs ∙ ap (λ k. behind k (x ∷ xs)) e
  behind-behind m (ℕ.suc n) [] = behind_nil m ∙ sym (behind_nil (suc n + m))

  -- Rows are left behind `n` exactly where there are more.
  is_none-behind : (n : ℕ) (xs : List A) → is_none (behind n xs) ≡ not (ltb n (length xs))
  unfolding behind
  is_none-behind ℕ.zero [] = refl
  is_none-behind ℕ.zero (x ∷ xs) = ground arith
  is_none-behind (ℕ.suc n) [] = ground arith
  is_none-behind (ℕ.suc n) (x ∷ xs) = ground (arith, is_none-behind n xs)

  first_pages_rest :
      (xs : List A) (limit n : ℕ) → first_pages xs limit n ++ behind (n * limit) xs ≡ xs
  unfolding first_pages read_page to_prisma paginate behind
  first_pages_rest xs limit ℕ.zero = ap (λ k. behind k xs) (zero-mul limit)
  first_pages_rest xs limit (ℕ.suc n) =
      let here : (suc n - 1) * limit ≡ n * limit = ap (λ k. k * limit) (omega arith) in
      let next : behind (suc n * limit) xs ≡ behind limit (behind (n * limit) xs) =
        ap (λ k. behind k xs) (suc-mul n limit) ∙ sym (behind-behind limit (n * limit) xs) in
      let page : rows_at (to_prisma (record { page = suc n; limit = limit })) xs
          ≡ front limit (behind (n * limit) xs) =
        ap (λ k. front limit (behind k xs)) here in
      let split = front-append-behind limit (behind (n * limit) xs) in
      append_assoc (first_pages xs limit n)
        (rows_at (to_prisma (record { page = suc n; limit = limit })) xs)
        (behind (suc n * limit) xs)
      ∙ ap (λ ys. first_pages xs limit n ++ ys) (cc (page, next, split))
      ∙ first_pages_rest xs limit n

  front-is_none : (n : ℕ) (xs : List A) → 1 ≤ n → is_none (front n xs) ≡ is_none xs
  unfolding front
  front-is_none ℕ.zero xs h = absurd (omega arith)
  front-is_none (ℕ.suc n) [] h = refl
  front-is_none (ℕ.suc n) (x ∷ xs) h = refl

  -- A page says of itself whether the next one has a row.
  has_next_page_lem :
      (xs : List A) (o : Options)
      → 1 ≤ o.page
      → 1 ≤ o.limit
      → (read_page xs o).meta.has_next_page
        ≡ not (is_none (read_page xs (record o { page = suc o.page })).rows)
  unfolding read_page to_prisma paginate
  has_next_page_lem xs o first some_rows = ground (
    arith,
    ltb-ceil_div o.page (length xs) o.limit some_rows,
    front-is_none o.limit (behind (o.page * o.limit) xs) some_rows,
    is_none-behind (o.page * o.limit) xs,
  )

module _ {A : Type 0} where
  of_is_none : (xs : List A) → is_none xs ≡ true → xs ≡ []
  of_is_none [] h = refl
  of_is_none (x ∷ xs) h = absurd (ground arith)

  pages_whole :
      (xs : List A) (limit : ℕ) → 1 ≤ limit → first_pages xs limit (ceil_div (length xs) limit) ≡ xs
  pages_whole xs limit h =
      let n = ceil_div (length xs) limit in
      let over : behind (n * limit) xs ≡ [] =
        of_is_none (behind (n * limit) xs)
          (ground (arith, is_none-behind (n * limit) xs, ltb-ceil_div n (length xs) limit h)) in
      sym (append-nil (first_pages xs limit n))
      ∙ ap (λ ys. first_pages xs limit n ++ ys) (sym over)
      ∙ first_pages_rest xs limit n

normalize_bounds :
    (page limit : Parameter)
    → let o = normalize page limit in (1 ≤ o.page) × (1 ≤ o.limit) × (o.limit ≤ max_limit)
unfolding normalize at_least_one
normalize_bounds page limit = (ground arith, ground arith, ground arith)

-- For a page and a limit as a query gives them, with no fraction among them: the limit of the answer is from
-- 1 to 100; the pages up to `totalPages`, one after the other, are all the rows; and a page has
-- `hasNextPage` exactly where the page after it has a row.
pub read_page_lem :
    {A : Type 0} (xs : List A) (page limit : Parameter)
    → let o = normalize page limit in
      let answer = read_page xs o in
      (1 ≤ answer.meta.limit)
      × (answer.meta.limit ≤ max_limit)
      × (first_pages xs o.limit answer.meta.total_pages ≡ xs)
      × (answer.meta.has_next_page
          ≡ not (is_none (read_page xs (record o { page = suc o.page })).rows))
unfolding read_page paginate
read_page_lem xs page limit =
    let o = normalize page limit in
    let (first, least, most) = normalize_bounds page limit in
    (least, most, pages_whole xs o.limit least, has_next_page_lem xs o first least)
