-- ===== src/Catalogue.antt =====
-- The paged lists of VM sizes and instance types: `getVmSizesPaginated` of
-- src/request/request.service.ts, `findAws` and `findAwsDB` of
-- src/cloud-providers/cloud-providers.service.ts. The validated query has a page and a limit of
-- one or more.
pub mod Pages
pub mod Routes
use orchestronic_be.Base.{
  ℕ, ◌+◌, ◌-◌, ◌*◌, ◌/◌, String, Option, none, some, List, Bool, ltb, or_else, if◌then◌else◌, ◌===◌,
}
use orchestronic_be.Effects.Data.{CatalogueWhere, Range}
use orchestronic_be.Effects.Calls.{Call, Query, History}
use orchestronic_be.Effects.Monad.{
  Exception, Outcome, Action, pure, throw, perform, rethrow_as, ◌>>=◌, ◌>>◌,
}

-- src/request/dto/get-vm-sizes.dto.ts
pub record GetVmSizesDto : Type 0 where
  pub page : Option ℕ
  pub limit : Option ℕ
  pub search : Option String
  pub min_cores : Option ℕ
  pub max_cores : Option ℕ
  pub min_memory : Option ℕ
  pub max_memory : Option ℕ

-- src/cloud-providers/dto/get-cloud-provider-aws-db.dto.ts
pub record GetAwsDbDto : Type 0 where
  pub page : Option ℕ
  pub limit : Option ℕ
  pub search : Option String
  pub min_storage_size : Option ℕ
  pub max_storage_size : Option ℕ
  pub engine : Option String

pub record Meta : Type 0 where
  pub total : ℕ
  pub page : ℕ
  pub limit : ℕ
  pub total_pages : ℕ
  pub has_next : Bool
  pub has_prev : Bool

pub record Paginated (Row : Type 0) : Type 0 where
  pub items : List Row
  pub meta : Meta

-- `const { page = 1, limit = 20 } = params`
abbrev pub page_of : Option ℕ → ℕ
page_of p = or_else p 1

abbrev pub limit_of : Option ℕ → ℕ
limit_of l = or_else l 20

-- `(page - 1) * limit`
abbrev pub skip_of : ℕ → ℕ → ℕ
skip_of page limit = (page - 1) * limit

-- `Math.ceil(total / limit)` and the flags
unfoldable pub page_meta : ℕ → ℕ → ℕ → Meta
page_meta total page limit =
    let total_pages = (total + limit - 1) / limit in
    record {
      total = total;
      page = page;
      limit = limit;
      total_pages = total_pages;
      has_next = ltb page total_pages;
      has_prev = ltb 1 page;
    }

-- `if (search)`: an empty text is no condition.
abbrev search_of : Option String → Option String
search_of none = none
search_of (some s) = if s === "" then none else some s

abbrev pub vm_where :
    (Option String → Range → Range → CatalogueWhere) → GetVmSizesDto → CatalogueWhere
vm_where table q =
    table (search_of q.search) (record { at_least = q.min_cores; at_most = q.max_cores })
      (record { at_least = q.min_memory; at_most = q.max_memory })

-- The filter of a query without `maxStorageSize`.
abbrev pub db_where : GetAwsDbDto → CatalogueWhere
db_where q = CatalogueWhere.aws_database_type (search_of q.search) q.min_storage_size q.engine

-- With `maxStorageSize` the field `lte` is set on `where.MaxStorageSize`, which is undefined.
abbrev db_filter : GetAwsDbDto → Option ℕ → Action CatalogueWhere
db_filter q none = pure (db_where q)
db_filter q (some _) = throw (Exception.type_error "MaxStorageSize of undefined")

-- What the database answers to a count and to a page of a catalogue: `skip` rows are left out and
-- at most `take` are given, in the order of the query.
pub record Catalogue (Row : Type 0) : Type 0 where
  pub count : CatalogueWhere → History → Outcome ℕ
  pub find_many : CatalogueWhere → ℕ → ℕ → History → Outcome (List Row)

module _ {Row : Type 0} (table : Catalogue Row) where
  abbrev count_rows : CatalogueWhere → Action ℕ
  count_rows w = perform (Call.read (Query.catalogue_count w)) (table.count w)

  abbrev find_rows : CatalogueWhere → ℕ → ℕ → Action (List Row)
  find_rows w skip take =
      perform (Call.read (Query.catalogue_page w skip take)) (table.find_many w skip take)

  unfoldable pub get_vm_sizes_paginated : GetVmSizesDto → Action (Paginated Row)
  unfolding page_meta
  get_vm_sizes_paginated q =
      rethrow_as (Exception.internal_server_error "Failed to fetch VM sizes") do
        total ← count_rows (vm_where CatalogueWhere.azure_vm_size q)
        items ←
            find_rows (vm_where CatalogueWhere.azure_vm_size q)
              (skip_of (page_of q.page) (limit_of q.limit)) (limit_of q.limit)
        pure (record { items = items; meta = page_meta total (page_of q.page) (limit_of q.limit) })

  unfoldable pub find_azure : GetVmSizesDto → Action (Paginated Row)
  find_azure query = get_vm_sizes_paginated query

  unfoldable pub find_aws : GetVmSizesDto → Action (Paginated Row)
  unfolding page_meta
  find_aws q = rethrow_as (Exception.error "Failed to fetch AWS instance types") do
    items ←
        find_rows (vm_where CatalogueWhere.aws_instance_type q)
          (skip_of (page_of q.page) (limit_of q.limit)) (limit_of q.limit)
    total ← count_rows (vm_where CatalogueWhere.aws_instance_type q)
    pure (record { items = items; meta = page_meta total (page_of q.page) (limit_of q.limit) })

  unfoldable pub find_aws_db : GetAwsDbDto → Action (Paginated Row)
  unfolding page_meta
  find_aws_db q = rethrow_as (Exception.error "Failed to fetch AWS db instance types") do
    w ← db_filter q q.max_storage_size
    items ← find_rows w (skip_of (page_of q.page) (limit_of q.limit)) (limit_of q.limit)
    total ← count_rows w
    pure (record { items = items; meta = page_meta total (page_of q.page) (limit_of q.limit) })
