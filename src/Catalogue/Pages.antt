-- ===== src/Catalogue/Pages.antt =====
-- The pages of a catalogue cover it: nothing is left out and nothing comes twice.
use mathlib.Core.List.{append-nil}
use orchestronic_be.Base.{
  ℕ, zero, suc, ◌+◌, ◌-◌, ◌*◌, ◌/◌, ◌≤◌, ◌<◌, some, List, [], ◌++◌, ◌≡◌, arith, length, ltb,
  if◌then◌else◌, Bool-cases, inl, inr, ◌∷◌, none, Option, true,
}
use orchestronic_be.Base.Lists.{take, drop, take-append-drop, take_all, drop-drop, length-drop}
use orchestronic_be.Effects.Data.{CatalogueWhere}
use orchestronic_be.Effects.Calls.{History, Call, Query}
use orchestronic_be.Effects.Monad.{Action, returned, pure, ◌>>=◌}
use orchestronic_be.Catalogue.{
  GetVmSizesDto, GetAwsDbDto, Paginated, Catalogue, limit_of, skip_of, page_meta, vm_where,
  db_where, get_vm_sizes_paginated, find_aws, find_aws_db,
}

-- Prisma's documented `count`, `skip` and `take`, for a table that holds the rows `rows` that fit
-- the condition, in the order of the query.
pub record Holds {Row : Type 0} (table : Catalogue Row) (w : CatalogueWhere) (rows : List Row)
    : Type 0 where
  pub counted : (h : History) → table.count w h ≡ returned (length rows)
  pub sliced :
      (skip n : ℕ) (h : History) → table.find_many w skip n h ≡ returned (take n (drop skip rows))

-- A client that starts at a page and goes on while `hasNext` is set; `none` when that is still set
-- after the last round.
abbrev onto : {Row : Type 0} → List Row → Option (List Row) → Option (List Row)
onto items none = none
onto items (some rest) = some (items ++ rest)

pub read_on : {Row : Type 0} → (ℕ → Action (Paginated Row)) → ℕ → ℕ → Action (Option (List Row))
read_on fetch zero page = pure none
read_on fetch (suc n) page = do
  p ← fetch page
  rest ← (if p.meta.has_next then read_on fetch n (page + 1) else pure (some []))
  pure (onto p.items rest)

-- A page that is not before the last reaches the end.
last_page :
    (total limit page : ℕ) → 0 < limit → (total + limit - 1) / limit ≤ page → total ≤ page * limit
last_page total limit page h k = grind arith

-- The page that a request should give, of the rows `rows`.
abbrev pub page_at : {Row : Type 0} → List Row → ℕ → ℕ → Paginated Row
page_at rows page limit = record {
  items = take limit (drop (skip_of page limit) rows);
  meta = page_meta (length rows) page limit;
}

next_skip : (p limit : ℕ) → skip_of (p + 1) limit ≡ p * limit
next_skip p limit = let a : p + 1 - 1 ≡ p = omega arith in rw a

skip_next : (p limit : ℕ) → 0 < p → skip_of (p + 1) limit ≡ skip_of p limit + limit
skip_next zero limit h = absurd (omega arith)
skip_next (suc p) limit h =
    let a : suc p + 1 - 1 ≡ suc p = omega arith in
    let b : suc p - 1 ≡ p = omega arith in rw (a, b) (omega arith)

module _ {Row : Type 0} (fetch : ℕ → Action (Paginated Row)) (rows : List Row) (limit : ℕ)
    (some_limit : 0 < limit)
    (paged : (page : ℕ) (h : History) → (fetch page h).0 ≡ returned (page_at rows page limit)) where
  -- What is left from a page on is that page and what is left from the next.
  page-append :
      (page : ℕ)
      → 0 < page
      → take limit (drop (skip_of page limit) rows) ++ drop (skip_of (page + 1) limit) rows
        ≡ drop (skip_of page limit) rows
  page-append page h =
      rw (skip_next page limit h, ← drop-drop limit (skip_of page limit) rows)
        (take-append-drop limit (drop (skip_of page limit) rows))

  final_page :
      (page : ℕ)
      → 0 < page
      → (length rows + limit - 1) / limit ≤ page
      → take limit (drop (skip_of page limit) rows) ++ [] ≡ drop (skip_of page limit) rows
  final_page page h k = rw append-nil (
      take_all limit (drop (skip_of page limit) rows) (
        omega (
          arith,
          length-drop (skip_of page limit) rows,
          skip_next page limit h,
          next_skip page limit,
          last_page (length rows) limit page some_limit k,
        )))

  -- After a page with a next one, a round is left.
  ltb-lt : (page total n : ℕ) → ltb page total ≡ true → total < suc n + page → 0 < n
  ltb-lt page total n more enough = grind arith

  read_on-drop :
      (n page : ℕ) (h : History)
      → 0 < page
      → 0 < n
      → (length rows + limit - 1) / limit < n + page
      → (read_on fetch n page h).0 ≡ returned (some (drop (skip_of page limit) rows))
  unfolding read_on page_meta
  read_on-drop zero page h first rounds enough = absurd (omega arith)
  read_on-drop (suc n) page h first rounds enough =
      elim (Bool-cases (ltb page ((length rows + limit - 1) / limit))) [
        | inl more ↦ ground (
          arith,
          paged page h,
          read_on-drop n (page + 1) (fetch page h).1 (omega arith)
              (ltb-lt page ((length rows + limit - 1) / limit) n more enough) (omega arith),
          page-append page first,
        )
        | inr last ↦ ground (arith, paged page h, final_page page first)
      ]

  -- Started at the first page, with a round or more and as many as there are pages, it gives every row once.
  read_on_all :
      (n : ℕ) (h : History)
      → 0 < n
      → (length rows + limit - 1) / limit ≤ n
      → (read_on fetch n 1 h).0 ≡ returned (some rows)
  read_on_all n h rounds enough =
      let first : 0 * limit ≡ 0 = omega arith in
      rw first at (read_on-drop n 1 h (omega arith) rounds (omega arith))

abbrev pub at_page : GetVmSizesDto → ℕ → GetVmSizesDto
at_page q page = record q { page = some page }

-- Whoever reads the VM sizes from the first page on while `hasNext` is set comes to
-- an end and is given each row that fits the condition once, in order, if the limit is positive and
-- at least one round is made and as many as `totalPages` says.
pub read_vm_sizes :
    {Row : Type 0} (table : Catalogue Row) (rows : List Row) (q : GetVmSizesDto) (n : ℕ)
    (h : History)
    → Holds table (vm_where CatalogueWhere.azure_vm_size q) rows
    → 0 < limit_of q.limit
    → 0 < n
    → (page_meta (length rows) 1 (limit_of q.limit)).total_pages ≤ n
    → (read_on (λ page. get_vm_sizes_paginated table (at_page q page)) n 1 h).0
      ≡ returned (some rows)
unfolding get_vm_sizes_paginated page_meta
read_vm_sizes table rows q n h holds some_limit rounds enough =
    read_on_all (λ page. get_vm_sizes_paginated table (at_page q page)) rows (limit_of q.limit)
      some_limit
      (λ page h'. ground (
        arith,
        holds.counted h',
        holds.sliced (skip_of page (limit_of q.limit)) (limit_of q.limit)
            (Call.read (Query.catalogue_count (vm_where CatalogueWhere.azure_vm_size q)) ∷ h'),
      ))
      n h rounds enough

-- Whoever reads the AWS instance types from the first page on while `hasNext` is set is given each
-- row that fits the condition once, in order, if the limit is positive and as many rounds are made
-- as `totalPages` says.
pub read_aws :
    {Row : Type 0} (table : Catalogue Row) (rows : List Row) (q : GetVmSizesDto) (n : ℕ)
    (h : History)
    → Holds table (vm_where CatalogueWhere.aws_instance_type q) rows
    → 0 < limit_of q.limit
    → 0 < n
    → (page_meta (length rows) 1 (limit_of q.limit)).total_pages ≤ n
    → (read_on (λ page. find_aws table (at_page q page)) n 1 h).0 ≡ returned (some rows)
unfolding find_aws page_meta
read_aws table rows q n h holds some_limit rounds enough =
    read_on_all (λ page. find_aws table (at_page q page)) rows (limit_of q.limit) some_limit
      (λ page h'. ground (
        arith,
        holds.sliced (skip_of page (limit_of q.limit)) (limit_of q.limit) h',
        holds.counted (
            Call.read (
              Query.catalogue_page (vm_where CatalogueWhere.aws_instance_type q)
                (skip_of page (limit_of q.limit)) (limit_of q.limit))
            ∷ h'),
      ))
      n h rounds enough

abbrev pub db_at_page : GetAwsDbDto → ℕ → GetAwsDbDto
db_at_page q page = record q { page = some page }

-- Whoever reads the AWS database types from the first page on while `hasNext` is set is given each
-- row that fits the condition once, in order, if the query has no `maxStorageSize`, the limit is
-- positive and as many rounds are made as `totalPages` says.
pub read_aws_db :
    {Row : Type 0} (table : Catalogue Row) (rows : List Row) (q : GetAwsDbDto) (n : ℕ) (h : History)
    → Holds table (db_where q) rows
    → q.max_storage_size ≡ none
    → 0 < limit_of q.limit
    → 0 < n
    → (page_meta (length rows) 1 (limit_of q.limit)).total_pages ≤ n
    → (read_on (λ page. find_aws_db table (db_at_page q page)) n 1 h).0 ≡ returned (some rows)
unfolding find_aws_db page_meta
read_aws_db table rows q n h holds unbounded some_limit rounds enough =
    read_on_all (λ page. find_aws_db table (db_at_page q page)) rows (limit_of q.limit) some_limit
      (λ page h'. ground (
        arith,
        holds.sliced (skip_of page (limit_of q.limit)) (limit_of q.limit) h',
        holds.counted (
            Call.read (
              Query.catalogue_page (db_where q) (skip_of page (limit_of q.limit))
                (limit_of q.limit))
            ∷ h'),
      ))
      n h rounds enough
