-- ===== src/Http/Paging.antt =====
-- `PaginationUtil` of src/common/utils/pagination.util.ts, with the query that its answer is given to.
--
-- A query parameter that is a fraction or infinite is left out.
use learn_nestjs.Common.{ℕ, suc, ◌-◌, ◌*◌, ◌/◌, ◌%◌, Bool, List, if◌then◌else◌, ◌==◌, ltb, leb}

-- `Number(text)` of a query parameter: NaN also where the parameter is missing.
pub data Parameter : Type 0 where
  not_a_number negative : Parameter
  natural : ℕ → Parameter

pub record Options : Type 0 where
  pub page : ℕ
  pub limit : ℕ

pub record PrismaPage : Type 0 where
  pub skip : ℕ
  pub take : ℕ

pub record PaginationMeta : Type 0 where
  pub total : ℕ
  pub page : ℕ
  pub limit : ℕ
  pub total_pages : ℕ
  pub has_next_page : Bool
  pub has_previous_page : Bool

pub record PaginatedResult (A : Type 0) : Type 0 where
  pub rows : List A
  pub meta : PaginationMeta

abbrev pub max_limit : ℕ
max_limit = 100

-- `Math.max(1, Number(value) || fallback)`
unfoldable pub at_least_one : Parameter → ℕ → ℕ
at_least_one not_a_number fallback = if leb fallback 1 then 1 else fallback
at_least_one negative fallback = 1
at_least_one (natural n) fallback =
    if n == 0 then (if leb fallback 1 then 1 else fallback) else if leb n 1 then 1 else n

unfoldable pub normalize : Parameter → Parameter → Options
unfolding at_least_one
normalize page limit =
    let bounded = at_least_one limit 20 in
    record {
      page = at_least_one page 1;
      limit = (if leb max_limit bounded then max_limit else bounded);
    }

-- The subtraction never stops at 0 for options that were normalised.
unfoldable pub to_prisma : Options → PrismaPage
to_prisma o = record { skip = (o.page - 1) * o.limit; take = o.limit }

-- `Math.ceil(total / limit)`
unfoldable pub ceil_div : ℕ → ℕ → ℕ
ceil_div total limit = if total % limit == 0 then total / limit else suc (total / limit)

unfoldable pub paginate : {A : Type 0} → List A → ℕ → Options → PaginatedResult A
unfolding ceil_div
paginate rows total o =
    let total_pages = ceil_div total o.limit in
    record {
      rows = rows;
      meta = record {
        total = total;
        page = o.page;
        limit = o.limit;
        total_pages = total_pages;
        has_next_page = ltb o.page total_pages;
        has_previous_page = ltb 1 o.page;
      };
    }
