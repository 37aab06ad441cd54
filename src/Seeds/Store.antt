-- ===== src/Seeds/Store.antt =====
-- The tables as the scripts of prisma/seed see them: a script changes the state of the database
-- and returns or throws. The database itself is an argument, with what PostgreSQL documents of
-- DELETE and of INSERT with `ON CONFLICT DO NOTHING`.
use orchestronic_be.Effects.Data.{PolicyTable, PolicyData}
use orchestronic_be.Base.{
  ℕ, String, Bool, List, [], ◌∷◌, ◌++◌, ◌≡◌, ◌⊎◌, ◌===◌, if◌then◌else◌, ◌||◌, ◌==◌, arith,
}
use orchestronic_be.Effects.Monad.{Exception, Outcome, returned, thrown}

module _ (S : Type 0) where
  -- A script over the states of a database.
  abbrev pub Script : Type 0 → Type 0
  Script A = S → Outcome A × S

module _ {S : Type 0} {A : Type 0} where
  abbrev pub pure : A → Script S A
  pure a s = (returned a, s)

  abbrev pub throw : Exception → Script S A
  throw e s = (thrown e, s)

  -- The end of a computation that is outside the database.
  abbrev pub lift : Outcome A → Script S A
  lift o s = (o, s)

infixl 5 ◌>>=◌ ◌>>◌
abbrev pub ◌>>=◌ : {S A B : Type 0} → Script S A → (A → Script S B) → Script S B
◌>>=◌ m f s = let (o, s') = m s in elim o [ returned a ↦ f a s' | thrown e ↦ (thrown e, s') ]

abbrev pub ◌>>◌ : {S A B : Type 0} → Script S A → Script S B → Script S B
m >> k = m >>= λ _. k

-- The rows that fit a condition, left out.
unfoldable pub reject : {Row : Type 0} → (Row → Bool) → List Row → List Row
reject p [] = []
reject p (x ∷ xs) = let rest = reject p xs in if p x then rest else x ∷ rest

module _ {Row : Type 0} (key : Row → String) where
  -- A row with the same unique column is there.
  unfoldable pub taken : String → List Row → Bool
  taken k [] = Bool.false
  taken k (x ∷ xs) = key x === k || taken k xs

  -- `INSERT … ON CONFLICT DO NOTHING`, row by row.
  unfoldable pub insert_new : List Row → List Row → List Row
  unfolding taken
  insert_new [] rows = rows
  insert_new (x ∷ xs) rows = insert_new xs (if taken (key x) rows then rows else rows ++ x ∷ [])

-- A table with a unique column: `deleteMany({ where })`, and `createMany` with `skipDuplicates`.
pub record Table (S : Type 0) (Row : Type 0) : Type 0 where
  pub key : Row → String
  pub rows : S → List Row
  pub delete_many : (Row → Bool) → Script S ℕ
  pub create_many : List Row → Script S ℕ

-- A statement that ends in one of two ways: it returns and leaves what is seen of the database at
-- one value, or it throws and leaves it at another.
abbrev pub Leaves : {S V A : Type 0} → (S → V) → Outcome A × S → V → V → Type 0
Leaves {A = A} view r after before =
    ((a : A) × (r.0 ≡ returned a) × (view r.1 ≡ after))
    ⊎ ((e : Exception) × (r.0 ≡ thrown e) × (view r.1 ≡ before))

-- What a statement does to the rows; one that fails is undone.
pub record IsTable {S Row : Type 0} (t : Table S Row) : Type 0 where
  pub deleted :
      (p : Row → Bool) (s : S) → Leaves t.rows (t.delete_many p s) (reject p (t.rows s)) (t.rows s)
  pub created :
      (xs : List Row) (s : S)
      → Leaves t.rows (t.create_many xs s) (insert_new t.key xs (t.rows s)) (t.rows s)

-- The tables of policies, which have no unique column but the id: `deleteMany({})` and `create`.
pub record PolicyStore (S : Type 0) : Type 0 where
  pub rows : S → PolicyTable → List PolicyData
  pub delete_many : PolicyTable → Script S ℕ
  pub create : PolicyTable → PolicyData → Script S ℕ

abbrev table_number : PolicyTable → ℕ
table_number PolicyTable.azure_vm = 0
table_number PolicyTable.azure_database = 1
table_number PolicyTable.azure_storage = 2
table_number PolicyTable.aws_vm = 3
table_number PolicyTable.aws_database = 4
table_number PolicyTable.aws_storage = 5

abbrev pub Policies : Type 0
Policies = PolicyTable → List PolicyData

abbrev pub set_table : PolicyTable → List PolicyData → Policies → Policies
set_table t xs f u = if table_number t == table_number u then xs else f u

pub record IsPolicyStore {S : Type 0} (store : PolicyStore S) : Type 0 where
  pub deleted :
      (t : PolicyTable) (s : S)
      → Leaves store.rows (store.delete_many t s) (set_table t [] (store.rows s)) (store.rows s)
  pub created :
      (t : PolicyTable) (d : PolicyData) (s : S)
      → Leaves store.rows
          (store.create t d s)
          (set_table t (store.rows s t ++ d ∷ []) (store.rows s))
          (store.rows s)

-- A script in two parts, by how the first ends.
module _ {S A B : Type 0} (m : Script S A) (f : A → Script S B) (s : S) where
  pub >>=-returned : (a : A) → (m s).0 ≡ returned a → (m >>= f) s ≡ f a (m s).1
  >>=-returned a q = ground arith

  pub >>=-thrown : (e : Exception) → (m s).0 ≡ thrown e → (m >>= f) s ≡ (thrown e, (m s).1)
  >>=-thrown e q = ground arith
