-- ===== src/Catalogue/Routes.antt =====
-- The routes of the catalogues, which read no token: src/cloud-providers/cloud-providers.controller.ts
-- and `getVmSizes` of src/request/request.controller.ts.
use orchestronic_be.Effects.Monad.{Action}
use orchestronic_be.Catalogue.{
  GetVmSizesDto, GetAwsDbDto, Paginated, Catalogue, get_vm_sizes_paginated, find_azure, find_aws,
  find_aws_db,
}

module _ {Row : Type 0} (table : Catalogue Row) where
  unfoldable pub vm_sizes_route : GetVmSizesDto → Action (Paginated Row)
  vm_sizes_route query = get_vm_sizes_paginated table query

  unfoldable pub azure_route : GetVmSizesDto → Action (Paginated Row)
  azure_route query = find_azure table query

  unfoldable pub aws_route : GetVmSizesDto → Action (Paginated Row)
  aws_route query = find_aws table query

  unfoldable pub aws_db_route : GetAwsDbDto → Action (Paginated Row)
  aws_db_route query = find_aws_db table query
