-- ===== src/Seeds/Classes.antt =====
-- What the seeds of the AWS instance types and database classes leave: they delete old rows and
-- insert new ones, in two statements.
use orchestronic_be.Seeds.Inserted.{first_of_each, insert_new-first_of_each, insert_new-append}
use orchestronic_be.Base.{
  ℕ, Bool, List, map, ◌≡◌, ap, ◌∙◌, inl, inr, true, ◌===◌, String, false, All, Bool-cases, ◌∷◌,
  ◌++◌, arith, [], refl, sym, ◌⊎◌,
}
use orchestronic_be.Effects.Monad.{Exception, Outcome, returned, thrown, Outcome-cases}
use orchestronic_be.Seeds.Store.{
  Table, IsTable, ◌>>◌, insert_new, reject, >>=-thrown, >>=-returned, taken,
}
use orchestronic_be.Seeds.{
  AwsInstanceTypeData, InstanceTypeItem, instance_type_record, seed_aws_instance_types, Engine,
  AwsDatabaseTypeData, DatabaseClassItem, database_class_record, is_engine, seed_engine, my_sql,
  postgre_sql, seed_aws_db,
}

module _ {S Row : Type 0} (t : Table S Row) where
  -- The rows after the two statements: as they were, without the old rows, or with the new ones.
  pub data Replaced (p : Row → Bool) (xs : List Row) (s : S) (r : Outcome ℕ × S) : Type 0 where
    as_before : (e : Exception) → r.0 ≡ thrown e → t.rows r.1 ≡ t.rows s → Replaced p xs s r
    only_deleted :
        (e : Exception) → r.0 ≡ thrown e → t.rows r.1 ≡ reject p (t.rows s) → Replaced p xs s r
    renewed :
        (n : ℕ)
        → r.0 ≡ returned n
        → t.rows r.1 ≡ insert_new t.key xs (reject p (t.rows s))
        → Replaced p xs s r

  pub Replaced-returned :
      {p : Row → Bool} {xs : List Row} {s : S} {r : Outcome ℕ × S}
      → Replaced p xs s r
      → (n : ℕ) → r.0 ≡ returned n
      → t.rows r.1 ≡ insert_new t.key xs (reject p (t.rows s))
  Replaced-returned (as_before e q rows) n eq = absurd (ground arith)
  Replaced-returned (only_deleted e q rows) n eq = absurd (ground arith)
  Replaced-returned (renewed m q rows) n eq = rows

  pub delete-create-Replaced :
      (laws : IsTable t) (p : Row → Bool) (xs : List Row) (s : S)
      → Replaced p xs s ((t.delete_many p >> t.create_many xs) s)
  delete-create-Replaced laws p xs s = elim (laws.deleted p s) [
    | inr (x, q, r) ↦
        let eq = >>=-thrown (t.delete_many p) (λ _. t.create_many xs) s x q in
        as_before x (ap (λ o. o.0) eq) (ap (λ o. t.rows o.1) eq ∙ r)
    | inl (a, q, r) ↦
        let eq = >>=-returned (t.delete_many p) (λ _. t.create_many xs) s a q in
        elim (laws.created xs (t.delete_many p s).1) [
          | inr (y, q', r') ↦
              only_deleted y (ap (λ o. o.0) eq ∙ q') (ap (λ o. t.rows o.1) eq ∙ r' ∙ r)
          | inl (b, q', r') ↦
              renewed b (ap (λ o. o.0) eq ∙ q')
                (ap (λ o. t.rows o.1) eq ∙ r' ∙ ap (insert_new t.key xs) r)
        ]
  ]

module _ {S : Type 0} (types : Table S AwsInstanceTypeData) (laws : IsTable types) where
  -- The seed of the instance types, given a file that can be read.
  pub seed_aws_instance_types-Replaced :
      (items : List InstanceTypeItem) (s : S)
      → Replaced types
          (λ _. true)
          (map instance_type_record items)
          s
          (seed_aws_instance_types types (returned items) s)
  unfolding seed_aws_instance_types
  seed_aws_instance_types-Replaced items s =
      delete-create-Replaced types laws (λ _. true) (map instance_type_record items) s

module _ {S : Type 0} (types : Table S AwsDatabaseTypeData) (laws : IsTable types) where
  pub seed_engine-Replaced :
      (engine : Engine) (items : List DatabaseClassItem) (s : S)
      → Replaced types
          (λ row. is_engine row.engine engine)
          (map (database_class_record engine) items)
          s
          (seed_engine types engine (returned items) s)
  unfolding seed_engine
  seed_engine-Replaced engine items s =
      delete-create-Replaced types laws (λ row. is_engine row.engine engine)
        (map (database_class_record engine) items) s

module _ {Row : Type 0} (key : Row → String) (q : Row → Bool) where
  -- Rows that fit the test never have the unique column of one that does not.
  abbrev Apart : Type 0
  Apart = (x y : Row) → q x ≡ false → q y ≡ true → (key y === key x) ≡ false

  taken-reject :
      (apart : Apart) (x : Row) (rows : List Row)
      → q x ≡ false
      → taken key (key x) (reject q rows) ≡ taken key (key x) rows
  unfolding taken reject
  taken-reject apart x [] e = refl
  taken-reject apart x (y ∷ rows) e = elim (Bool-cases (q y)) [
    | inl fits ↦ let a = apart x y e fits in ground (arith, taken-reject apart x rows e)
    | inr other ↦ ground (arith, taken-reject apart x rows e)
  ]

  reject-append :
      (x : Row) (rows : List Row)
      → q x ≡ false
      → reject q (rows ++ x ∷ []) ≡ reject q rows ++ x ∷ []
  unfolding reject
  reject-append x [] e = ground arith
  reject-append x (y ∷ rows) e = ground (arith, reject-append x rows e)

  reject-insert_new :
      (apart : Apart) (xs rows : List Row)
      → All (λ x. q x ≡ false) xs
      → reject q (insert_new key xs rows) ≡ insert_new key xs (reject q rows)
  unfolding insert_new
  reject-insert_new apart [] rows h = refl
  reject-insert_new apart (x ∷ xs) rows h = elim (Bool-cases (taken key (key x) rows)) [
    | inl there ↦ rw (taken-reject apart x rows h.0, there) (reject-insert_new apart xs rows h.1)
    | inr fresh ↦
        let snoc = reject-append x rows h.0 in
        rw (taken-reject apart x rows h.0, fresh)
          (reject-insert_new apart xs (rows ++ x ∷ []) h.1 ∙ ap (insert_new key xs) snoc)
  ]

Engine-cases : (e : Engine) → (e ≡ my_sql) ⊎ (e ≡ postgre_sql)
Engine-cases my_sql = inl refl
Engine-cases postgre_sql = inr refl

other_engine :
    (e f : Engine) → is_engine e my_sql ≡ false → is_engine f my_sql ≡ true → is_engine e f ≡ false
other_engine my_sql f a b = absurd (cc)
other_engine postgre_sql my_sql a b = refl
other_engine postgre_sql postgre_sql a b = absurd (cc)

-- Between them the two engines' tests leave out every row.
no_engine :
    (rows : List AwsDatabaseTypeData)
    → reject
        (λ row. is_engine row.engine my_sql)
        (reject (λ row. is_engine row.engine postgre_sql) rows)
      ≡ []
unfolding reject
no_engine [] = refl
no_engine (row ∷ rows) = elim (Engine-cases row.engine) [
  | inl e ↦ ground (arith, no_engine rows)
  | inr e ↦ ground (arith, no_engine rows)
]

records-engine :
    (engine other : Engine) (items : List DatabaseClassItem)
    → is_engine engine other ≡ false
    → All (λ row. is_engine row.engine other ≡ false) (map (database_class_record engine) items)
unfolding database_class_record
records-engine engine other [] e = tt
records-engine engine other (it ∷ items) e = (e, records-engine engine other items e)

module _ {S : Type 0} (types : Table S AwsDatabaseTypeData) (laws : IsTable types)
    (apart : (x y : AwsDatabaseTypeData)
      → is_engine x.engine y.engine ≡ false
      → (types.key y === types.key x) ≡ false) where
  -- When the seed of the database classes returns, the table holds the first row of each engine
  -- and class of the two files, those of PostgreSQL before those of MySQL, and nothing else,
  -- whatever it held before. The unique column tells the two engines apart.
  pub seed_aws_db-first_of_each :
      (postgres mysql : List DatabaseClassItem) (s : S) (n : ℕ)
      → (seed_aws_db types (returned postgres) (returned mysql) s).0 ≡ returned n
      → types.rows (seed_aws_db types (returned postgres) (returned mysql) s).1
        ≡ first_of_each types.key (
            map (database_class_record postgre_sql) postgres
            ++ map (database_class_record my_sql) mysql)
  unfolding seed_aws_db
  seed_aws_db-first_of_each postgres mysql s n e =
      let first = seed_engine types postgre_sql (returned postgres) in
      let second = seed_engine types my_sql (returned mysql) in
      let pg = map (database_class_record postgre_sql) postgres in
      let my = map (database_class_record my_sql) mysql in
      let mine = λ (row : AwsDatabaseTypeData). is_engine row.engine my_sql in
      elim (Outcome-cases (first s).0) [
        | inr (x, q) ↦ absurd (ground (arith, >>=-thrown first (λ _. second) s x q))
        | inl (a, q) ↦
            let eq = >>=-returned first (λ _. second) s a q in
            let one =
              Replaced-returned types (seed_engine-Replaced types laws postgre_sql postgres s) a
                q in
            let two =
              Replaced-returned types (seed_engine-Replaced types laws my_sql mysql (first s).1) n
                (ap (λ o. o.0) (sym eq) ∙ e) in
            let moved =
              reject-insert_new types.key mine
                (λ x y a b. apart x y (other_engine x.engine y.engine a b)) pg _
                (records-engine postgre_sql my_sql postgres refl) in
            ap (λ o. types.rows o.1) eq
            ∙ two
            ∙ ap (λ rs. insert_new types.key my (reject mine rs)) one
            ∙ ap (insert_new types.key my)
                (moved ∙ ap (insert_new types.key pg) (no_engine (types.rows s)))
            ∙ sym (insert_new-append types.key pg my [])
            ∙ insert_new-first_of_each types.key (pg ++ my)
      ]
