-- ===== src/Policy.antt =====
-- The policies: src/aws-policy/aws-policy.service.ts and src/azure-policy/azure-policy.service.ts
-- with their controllers. Each table has the fields of its body; an update changes every row.
pub mod Guard
use orchestronic_be.Base.{ℕ, String, Option, none, some, Bool, true, false, concat, if◌then◌else◌}
use orchestronic_be.Schema.{Role}
use orchestronic_be.Effects.Data.{PolicyTable, PolicyData}
use orchestronic_be.Effects.Calls.{Call, Query, Write, History}
use orchestronic_be.Effects.Monad.{
  Exception, Outcome, returned, thrown, Action, pure, perform, ◌>>=◌, ◌>>◌,
}
use orchestronic_be.Session.{Session, authenticate, has_token, lift, invalid_token}
use orchestronic_be.Request.Dto.{BackendJwtPayload}

-- The VM policies: src/aws-policy/dto/aws-vm-policy.dto.ts, with the memory in MB.
pub record VmPolicyDto : Type 0 where
  pub name : String
  pub number_of_cores : ℕ
  pub memory_in_mb : ℕ

-- The policies of databases and of storages: src/aws-policy/dto/aws-db-policy.dto.ts.
pub record StoragePolicyDto : Type 0 where
  pub max_storage : ℕ

-- The rows of the policy tables, read and written.
pub record PolicyTables : Type 0 where
  pub first : PolicyTable → Option String → History → Outcome (Option PolicyData)
  pub create : PolicyTable → PolicyData → History → Outcome PolicyData
  -- the number of rows that were changed
  pub update_many : PolicyTable → PolicyData → History → Outcome ℕ

-- `{ ...policyData }`
abbrev pub machine_data : VmPolicyDto → PolicyData
machine_data d = PolicyData.machine d.name d.number_of_cores d.memory_in_mb

abbrev pub storage_data : StoragePolicyDto → PolicyData
storage_data d = PolicyData.max_storage d.max_storage

-- `user.role !== Role.Admin`
abbrev pub is_admin : Option Role → Bool
is_admin (some Role.admin) = true
is_admin _ = false

-- The methods are not asynchronous: they throw at once or give back a promise.
abbrev pub Method : Type 0 → Type 0
Method A = Outcome (Action A)

abbrev pub only_admins : {A : Type 0} → BackendJwtPayload → String → Action A → Method A
only_admins user what promise =
    if is_admin user.role
    then returned promise
    else thrown (Exception.error (concat "Unauthorized: Only admins can " what))

-- What a write gives back: the row that was made, or the number of rows that were changed.
pub data PolicyAnswer : Type 0 where
  row : PolicyData → PolicyAnswer
  count : ℕ → PolicyAnswer

module _ (db : PolicyTables) where
  abbrev first_policy : PolicyTable → Option String → Action (Option PolicyData)
  first_policy t name = perform (Call.read (Query.policy_first t name)) (db.first t name)

  abbrev pub create_row : PolicyTable → PolicyData → Action PolicyAnswer
  create_row t d = do
    made ← perform (Call.write (Write.create_policy t d)) (db.create t d)
    pure (row made)

  abbrev pub update_rows : PolicyTable → PolicyData → Action PolicyAnswer
  update_rows t d = do
    changed ← perform (Call.write (Write.update_policy t d)) (db.update_many t d)
    pure (count changed)

  unfoldable pub azure_create_policy_vm : BackendJwtPayload → VmPolicyDto → Method PolicyAnswer
  azure_create_policy_vm user d =
      only_admins user "create VM policies" (create_row PolicyTable.azure_vm (machine_data d))

  unfoldable pub azure_create_policy_db : BackendJwtPayload → StoragePolicyDto → Method PolicyAnswer
  azure_create_policy_db user d =
      only_admins user "create DB policies" (create_row PolicyTable.azure_database (storage_data d))

  unfoldable pub azure_create_policy_st : BackendJwtPayload → StoragePolicyDto → Method PolicyAnswer
  azure_create_policy_st user d =
      only_admins user "create ST policies" (create_row PolicyTable.azure_storage (storage_data d))

  unfoldable pub azure_update_policy_vm : BackendJwtPayload → VmPolicyDto → Method PolicyAnswer
  azure_update_policy_vm user d =
      only_admins user "update VM policies" (update_rows PolicyTable.azure_vm (machine_data d))

  unfoldable pub azure_update_policy_db : BackendJwtPayload → StoragePolicyDto → Method PolicyAnswer
  azure_update_policy_db user d =
      only_admins user "update DB policies"
        (update_rows PolicyTable.azure_database (storage_data d))

  unfoldable pub azure_update_policy_st : BackendJwtPayload → StoragePolicyDto → Method PolicyAnswer
  azure_update_policy_st user d =
      only_admins user "update ST policies" (update_rows PolicyTable.azure_storage (storage_data d))

  unfoldable pub aws_update_policy_vm : BackendJwtPayload → VmPolicyDto → Method PolicyAnswer
  aws_update_policy_vm user d =
      only_admins user "update VM policies" (update_rows PolicyTable.aws_vm (machine_data d))

  unfoldable pub aws_update_policy_db : BackendJwtPayload → StoragePolicyDto → Method PolicyAnswer
  aws_update_policy_db user d =
      only_admins user "update DB policies" (update_rows PolicyTable.aws_database (storage_data d))

  unfoldable pub aws_update_policy_st : BackendJwtPayload → StoragePolicyDto → Method PolicyAnswer
  aws_update_policy_st user d =
      only_admins user "update ST policies" (update_rows PolicyTable.aws_storage (storage_data d))

  -- The promise of a query is made inside `try` and awaited outside, so its failures pass through.
  unfoldable pub get_policy : PolicyTable → Action (Option PolicyData)
  get_policy t = first_policy t none

  unfoldable pub get_policy_cluster_azure : Action (Option PolicyData)
  get_policy_cluster_azure = first_policy PolicyTable.azure_vm (some "Standard_D2s_v3")

  unfoldable pub get_policy_cluster_aws : Action (Option PolicyData)
  get_policy_cluster_aws = first_policy PolicyTable.aws_vm (some "")

-- What a method throws at once inside `try` is answered as an invalid token.
abbrev pub or_invalid_token : {A : Type 0} → Outcome A → Outcome A
or_invalid_token (returned a) = returned a
or_invalid_token (thrown _) = thrown (Exception.unauthorized "Invalid token")

-- The routes that call a method with the user of the token.
unfoldable pub method_route : {A : Type 0} → Session → (BackendJwtPayload → Method A) → Action A
method_route s method = do
  user ← lift (authenticate s invalid_token)
  promise ← lift (or_invalid_token (method user))
  promise

-- The routes that read a policy, by table, for Azure and for AWS, ask for a cookie, which they do
-- not verify.
unfoldable pub get_policy_route : PolicyTables → Session → PolicyTable → Action (Option PolicyData)
get_policy_route db s t = lift (has_token s) >> get_policy db t

unfoldable pub get_aws_policy_route :
    PolicyTables → Session → PolicyTable → Action (Option PolicyData)
get_aws_policy_route db s t = lift (has_token s) >> get_policy db t

unfoldable pub get_policy_cluster_route : PolicyTables → Session → Action (Option PolicyData)
get_policy_cluster_route db s = lift (has_token s) >> get_policy_cluster_azure db

-- The routes that change a policy, with their bodies.
pub data PolicyChange : Type 0 where
  azure_create_vm azure_update_vm aws_update_vm : VmPolicyDto → PolicyChange
  azure_create_db azure_create_st azure_update_db azure_update_st : StoragePolicyDto → PolicyChange
  aws_update_db aws_update_st : StoragePolicyDto → PolicyChange

abbrev pub method_of : PolicyTables → PolicyChange → BackendJwtPayload → Method PolicyAnswer
method_of db (azure_create_vm d) user = azure_create_policy_vm db user d
method_of db (azure_create_db d) user = azure_create_policy_db db user d
method_of db (azure_create_st d) user = azure_create_policy_st db user d
method_of db (azure_update_vm d) user = azure_update_policy_vm db user d
method_of db (azure_update_db d) user = azure_update_policy_db db user d
method_of db (azure_update_st d) user = azure_update_policy_st db user d
method_of db (aws_update_vm d) user = aws_update_policy_vm db user d
method_of db (aws_update_db d) user = aws_update_policy_db db user d
method_of db (aws_update_st d) user = aws_update_policy_st db user d

abbrev pub change_policy_route : PolicyTables → Session → PolicyChange → Action PolicyAnswer
change_policy_route db s change = method_route s (method_of db change)
