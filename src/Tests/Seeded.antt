-- ===== src/Tests/Seeded.antt =====
-- A database of lists, which keeps what the seeds write.
use text.Mathlib.TextEquality.{eq_iff}
use Prim.Native.Char.{code}
use orchestronic_be.Base.{
  ℕ, String, some, List, [], ◌∷◌, ◌++◌, ◌≡◌, refl, ap, false, inl, inr, arith, Bool-cases, ◌===◌,
  map,
}
use orchestronic_be.Base.Text.{codes}
use orchestronic_be.Effects.Data.{PolicyTable}
use orchestronic_be.Effects.Monad.{returned}
use orchestronic_be.Seeds.Store.{
  Table, IsTable, PolicyStore, IsPolicyStore, Policies, set_table, reject, insert_new, taken,
}
use orchestronic_be.Seeds.{
  AzureVmSizeData, seed_batches, seed_azure_vm_sizes, AwsDatabaseTypeData, DatabaseClassItem,
  Engine, my_sql, postgre_sql, seed_aws_db, seed_engine, is_engine, seed_policy, policy_row,
  database_class_record,
}
use orchestronic_be.Seeds.Inserted.{first_of_each}
use orchestronic_be.Seeds.Batches.{SizesSeeded, seed_azure_vm_sizes-SizesSeeded}
use orchestronic_be.Seeds.Classes.{seed_aws_db-first_of_each}
use orchestronic_be.Seeds.Policies.{seed_times, seed_times-seeded}

abbrev list_table : {Row : Type 0} → (Row → String) → Table (List Row) Row
list_table key = record {
  key = key;
  rows = λ s. s;
  delete_many = λ p s. (returned 0, reject p s);
  create_many = λ xs s. (returned 0, insert_new key xs s);
}

list_table-IsTable : {Row : Type 0} (key : Row → String) → IsTable (list_table key)
list_table-IsTable key = record {
  deleted = λ p s. inl (0, refl, refl);
  created = λ xs s. inl (0, refl, refl);
}

abbrev size : String → ℕ → AzureVmSizeData
size name cores = record {
  name = name;
  number_of_cores = cores;
  max_data_disk_count = 2;
  memory_in_mb = 512;
  os_disk_size_in_mb = 1024;
  resource_disk_size_in_mb = 4096;
}

abbrev sizes_file : List AzureVmSizeData
sizes_file = size "B1ls" 1 ∷ size "B2s" 2 ∷ size "B1ls" 8 ∷ []

abbrev size_table : Table (List AzureVmSizeData) AzureVmSizeData
size_table = list_table (λ row. row.name)

-- A name that is twice in the file keeps its first row; the old row is gone.
seeds_sizes :
    seed_azure_vm_sizes size_table (returned (some sizes_file)) (size "A0" 1 ∷ [])
    ≡ (returned 3, size "B1ls" 1 ∷ size "B2s" 2 ∷ [])
unfolding seed_azure_vm_sizes seed_batches reject insert_new taken
seeds_sizes = refl

seed_azure_vm_sizes-SizesSeeded_example :
    SizesSeeded size_table
      (returned (some sizes_file))
      (size "A0" 1 ∷ [])
      (seed_azure_vm_sizes size_table (returned (some sizes_file)) (size "A0" 1 ∷ []))
seed_azure_vm_sizes-SizesSeeded_example =
    seed_azure_vm_sizes-SizesSeeded size_table (list_table-IsTable (λ row. row.name))
      (returned (some sizes_file)) (size "A0" 1 ∷ [])

abbrev engine_key : Engine → String → String
engine_key my_sql name = String.◌∷◌ "M" name
engine_key postgre_sql name = String.◌∷◌ "P" name

abbrev type_table : Table (List AwsDatabaseTypeData) AwsDatabaseTypeData
type_table = list_table (λ row. engine_key row.engine row.db_instance_class)

abbrev first_code : String → ℕ
first_code String.[] = 0
first_code (String.◌∷◌ c s) = code c

engine_key-apart :
    (e f : Engine) (s t : String)
    → is_engine e f ≡ false
    → (engine_key f t === engine_key e s) ≡ false
engine_key-apart my_sql my_sql s t h = absurd (cc)
engine_key-apart postgre_sql postgre_sql s t h = absurd (cc)
engine_key-apart my_sql postgre_sql s t h =
    elim (Bool-cases (String.◌∷◌ "P" t === String.◌∷◌ "M" s)) [
      | inr e ↦ e
      | inl e ↦
          let q : ◌≡◌ {A = ℕ} 80 77 =
            ap first_code ((eq_iff (String.◌∷◌ "P" t) (String.◌∷◌ "M" s)).0 e) in
          absurd (omega (arith, q))
    ]
engine_key-apart postgre_sql my_sql s t h =
    elim (Bool-cases (String.◌∷◌ "M" t === String.◌∷◌ "P" s)) [
      | inr e ↦ e
      | inl e ↦
          let q : ◌≡◌ {A = ℕ} 77 80 =
            ap first_code ((eq_iff (String.◌∷◌ "M" t) (String.◌∷◌ "P" s)).0 e) in
          absurd (omega (arith, q))
    ]

abbrev class_item : String → DatabaseClassItem
class_item name = record {
  db_instance_class = name;
  min_storage_size = codes "20";
  max_storage_size = codes "65536";
}

seed_aws_db_returns :
    (seed_aws_db type_table
      (returned (class_item "db.m5" ∷ class_item "db.m5" ∷ []))
      (returned (class_item "db.m5" ∷ []))
      []).0
    ≡ returned 0
unfolding seed_aws_db seed_engine
seed_aws_db_returns = refl

seed_aws_db-first_of_each_example :
    (seed_aws_db type_table
      (returned (class_item "db.m5" ∷ class_item "db.m5" ∷ []))
      (returned (class_item "db.m5" ∷ []))
      []).1
    ≡ first_of_each type_table.key (
        map (database_class_record postgre_sql) (class_item "db.m5" ∷ class_item "db.m5" ∷ [])
        ++ map (database_class_record my_sql) (class_item "db.m5" ∷ []))
seed_aws_db-first_of_each_example =
    seed_aws_db-first_of_each type_table (list_table-IsTable type_table.key)
      (λ x y h. engine_key-apart x.engine y.engine x.db_instance_class y.db_instance_class h)
      (class_item "db.m5" ∷ class_item "db.m5" ∷ []) (class_item "db.m5" ∷ []) [] 0
      seed_aws_db_returns

abbrev policy_lists : PolicyStore Policies
policy_lists = record {
  rows = λ s. s;
  delete_many = λ t s. (returned 0, set_table t [] s);
  create = λ t d s. (returned 0, set_table t (s t ++ d ∷ []) s);
}

policy_lists-IsPolicyStore : IsPolicyStore policy_lists
policy_lists-IsPolicyStore = record {
  deleted = λ t s. inl (0, refl, refl);
  created = λ t d s. inl (0, refl, refl);
}

seed_times_returns : (seed_times policy_lists 2 (λ _. [])).0 ≡ returned 0
unfolding seed_times seed_policy
seed_times_returns = refl

-- After two runs there are two AWS policies for machines.
seed_times-seeded_example :
    (seed_times policy_lists 2 (λ _. [])).1 PolicyTable.aws_vm
    ≡ policy_row PolicyTable.aws_vm ∷ policy_row PolicyTable.aws_vm ∷ []
seed_times-seeded_example =
    seed_times-seeded policy_lists policy_lists-IsPolicyStore 2 (λ _. []) 0 PolicyTable.aws_vm
      seed_times_returns
