-- ===== src/Tests/Catalogues.antt =====
-- Three VM sizes, read two at a time.
use orchestronic_be.Base.{String, none, some, List, [], ◌∷◌, ◌≡◌, refl, arith, length}
use orchestronic_be.Base.Lists.{take, drop}
use orchestronic_be.Effects.Data.{CatalogueWhere}
use orchestronic_be.Effects.Monad.{returned}
use orchestronic_be.Catalogue.{
  GetVmSizesDto, GetAwsDbDto, Catalogue, vm_where, page_meta, get_vm_sizes_paginated,
}
use orchestronic_be.Catalogue.Pages.{Holds, read_on, at_page, read_vm_sizes}

abbrev sizes : List String
sizes = "small" ∷ "medium" ∷ "large" ∷ []

abbrev table : Catalogue String
table = record {
  count = λ w h. returned (length sizes);
  find_many = λ w skip n h. returned (take n (drop skip sizes));
}

table-Holds : (w : CatalogueWhere) → Holds table w sizes
table-Holds w = record { counted = λ h. refl; sliced = λ skip n h. refl }

abbrev query : GetVmSizesDto
query = record {
  page = none;
  limit = some 2;
  search = none;
  min_cores = none;
  max_cores = none;
  min_memory = none;
  max_memory = none;
}

abbrev db_query : GetAwsDbDto
db_query = record {
  page = none;
  limit = some 2;
  search = none;
  min_storage_size = none;
  max_storage_size = none;
  engine = none;
}

two_pages : (page_meta 3 1 2).total_pages ≡ 2
unfolding page_meta
two_pages = refl

read_vm_sizes_example :
    (read_on (λ page. get_vm_sizes_paginated table (at_page query page)) 2 1 []).0
    ≡ returned (some sizes)
read_vm_sizes_example =
    read_vm_sizes table sizes query 2 [] (table-Holds (vm_where CatalogueWhere.azure_vm_size query))
      (omega arith) (omega arith) (omega (arith, two_pages))
