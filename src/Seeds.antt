-- ===== src/Seeds.antt =====
-- The scripts that fill the tables, prisma/seed.ts and prisma/seed/*.ts: the catalogues of machine
-- sizes, instance types and database classes, and the policies. A file of data is what reading and
-- parsing it gives; the connection to the database is the state of the script.
pub mod Store
pub mod Inserted
pub mod Batches
pub mod Classes
pub mod Policies
use orchestronic_be.Base.{
  ℕ, zero, suc, ◌+◌, String, Option, none, some, Bool, true, List, map, length, ltb, or_else,
  if◌then◌else◌,
}
use orchestronic_be.Base.Lists.{take, drop}
use orchestronic_be.Base.Text.{Text}
use orchestronic_be.Base.Decimal.{parse_int_ten}
use orchestronic_be.Effects.Data.{PolicyTable, PolicyData}
use orchestronic_be.Effects.Monad.{Exception, Outcome}
use orchestronic_be.Seeds.Store.{Script, pure, throw, lift, ◌>>=◌, ◌>>◌, Table, PolicyStore}

-- `AzureVMSizeData` of prisma/seed/seed-azure-vm-size.ts
pub record AzureVmSizeData : Type 0 where
  pub name : String
  pub number_of_cores : ℕ
  pub max_data_disk_count : ℕ
  pub memory_in_mb : ℕ
  pub os_disk_size_in_mb : ℕ
  pub resource_disk_size_in_mb : ℕ

abbrev pub batch_size : ℕ
batch_size = 100

-- `Array.isArray(parsedData)`: a JSON value that is no array is `none`.
abbrev as_array : {S A : Type 0} → Option (List A) → Script S (List A)
as_array none = throw (Exception.error "Invalid JSON format: expected an array")
as_array (some xs) = pure xs

module _ {S : Type 0} (sizes : Table S AzureVmSizeData) where
  -- `for (let i = 0; i < vmSizes.length; i += batchSize)`, with fuel for the rounds.
  unfoldable pub seed_batches : ℕ → ℕ → List AzureVmSizeData → ℕ → Script S ℕ
  seed_batches zero i vm_sizes seeded_count = pure seeded_count
  seed_batches (suc fuel) i vm_sizes seeded_count =
      let batch = take batch_size (drop i vm_sizes) in
      let rest = seed_batches fuel (i + batch_size) vm_sizes (seeded_count + length batch) in
      if ltb i (length vm_sizes) then sizes.create_many batch >> rest else pure seeded_count

  -- The errors that it catches it throws again.
  unfoldable pub seed_azure_vm_sizes : Outcome (Option (List AzureVmSizeData)) → Script S ℕ
  seed_azure_vm_sizes file = do
    parsed_data ← lift file
    vm_sizes ← as_array parsed_data
    sizes.delete_many (λ _. true)
    seed_batches (length vm_sizes) 0 vm_sizes 0

-- An item of ec2-instance-types.json, and the row that is made of it.
pub record InstanceTypeItem : Type 0 where
  pub instance_type : String
  pub default_v_cpus : Option ℕ
  pub size_in_mi_b : Option ℕ

pub record AwsInstanceTypeData : Type 0 where
  pub name : String
  pub number_of_cores : ℕ
  pub memory_in_mb : ℕ

abbrev pub instance_type_record : InstanceTypeItem → AwsInstanceTypeData
instance_type_record it = record {
  name = it.instance_type;
  number_of_cores = or_else it.default_v_cpus 0;
  memory_in_mb = or_else it.size_in_mi_b 0;
}

-- `main` of prisma/seed/seed-aws-instance-type.ts
unfoldable pub seed_aws_instance_types :
    {S : Type 0} → Table S AwsInstanceTypeData → Outcome (List InstanceTypeItem) → Script S ℕ
seed_aws_instance_types types file = do
  items ← lift file
  types.delete_many (λ _. true)
  types.create_many (map instance_type_record items)

pub data Engine : Type 0 where
  my_sql postgre_sql : Engine

-- An item of db-postgres-instance-class.json or db-mysql-instance-class.json, and the row that is
-- made of it. The sizes are the texts that `parseInt` reads, also those of numbers; `none` is NaN.
pub record DatabaseClassItem : Type 0 where
  pub db_instance_class : String
  pub min_storage_size : Text
  pub max_storage_size : Text

pub record AwsDatabaseTypeData : Type 0 where
  pub engine : Engine
  pub db_instance_class : String
  pub min_storage_size : Option ℕ
  pub max_storage_size : Option ℕ

abbrev pub is_engine : Engine → Engine → Bool
is_engine my_sql my_sql = Bool.true
is_engine postgre_sql postgre_sql = Bool.true
is_engine _ _ = Bool.false

unfoldable pub database_class_record : Engine → DatabaseClassItem → AwsDatabaseTypeData
database_class_record engine it = record {
  engine = engine;
  db_instance_class = it.db_instance_class;
  min_storage_size = parse_int_ten it.min_storage_size;
  max_storage_size = parse_int_ten it.max_storage_size;
}

module _ {S : Type 0} (types : Table S AwsDatabaseTypeData) where
  -- One of the two halves of `main`, which differ in the engine and the file.
  unfoldable pub seed_engine : Engine → Outcome (List DatabaseClassItem) → Script S ℕ
  seed_engine engine file = do
    items ← lift file
    types.delete_many (λ row. is_engine row.engine engine)
    types.create_many (map (database_class_record engine) items)

  -- `main` of prisma/seed/seed-aws-db.ts
  unfoldable pub seed_aws_db :
      Outcome (List DatabaseClassItem) → Outcome (List DatabaseClassItem) → Script S ℕ
  seed_aws_db postgres mysql = seed_engine postgre_sql postgres >> seed_engine my_sql mysql

-- `main` of prisma/seed/seed-policy.ts
abbrev pub policy_row : PolicyTable → PolicyData
policy_row PolicyTable.azure_vm = PolicyData.machine "Standard_B1ls" 1 512
policy_row PolicyTable.azure_database = PolicyData.max_storage 100
policy_row PolicyTable.azure_storage = PolicyData.max_storage 200
policy_row PolicyTable.aws_vm = PolicyData.machine "m6i.xlarge" 4 16384
policy_row PolicyTable.aws_database = PolicyData.max_storage 100
policy_row PolicyTable.aws_storage = PolicyData.max_storage 200

unfoldable pub seed_policy : {S : Type 0} → PolicyStore S → Script S ℕ
seed_policy store = do
  store.delete_many PolicyTable.azure_vm
  store.delete_many PolicyTable.azure_database
  store.delete_many PolicyTable.azure_storage
  store.create PolicyTable.azure_vm (policy_row PolicyTable.azure_vm)
  store.create PolicyTable.azure_database (policy_row PolicyTable.azure_database)
  store.create PolicyTable.azure_storage (policy_row PolicyTable.azure_storage)
  store.create PolicyTable.aws_vm (policy_row PolicyTable.aws_vm)
  store.create PolicyTable.aws_database (policy_row PolicyTable.aws_database)
  store.create PolicyTable.aws_storage (policy_row PolicyTable.aws_storage)
