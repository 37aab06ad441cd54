-- ===== src/Seeds/Batches.antt =====
-- What the seed of the Azure machine sizes leaves, however it ends.
use mathlib.Core.Path.{subst}
use orchestronic_be.Base.{
  ℕ, zero, suc, ◌+◌, ◌*◌, ◌≤◌, ◌<◌, Option, none, some, true, List, [], ◌≡◌, refl, sym, ap, ◌∙◌,
  ◌⊎◌, inl, inr, arith, length, ltb, Bool-cases,
}
use orchestronic_be.Base.Lists.{take, drop, take_all, take-add, length-append}
use orchestronic_be.Effects.Monad.{Exception, Outcome, returned, thrown}
use orchestronic_be.Seeds.Store.{Table, IsTable, insert_new, >>=-returned, >>=-thrown}
use orchestronic_be.Seeds.Inserted.{
  first_of_each, insert_new-append, insert_new-first_of_each, reject_all,
}
use orchestronic_be.Seeds.{AzureVmSizeData, batch_size, seed_batches, seed_azure_vm_sizes}

module _ {S : Type 0} (sizes : Table S AzureVmSizeData) where
  -- The sizes that a table holds into which these were inserted.
  abbrev pub held : List AzureVmSizeData → List AzureVmSizeData
  held xs = first_of_each sizes.key xs

  -- All of the sizes are in the table and were counted, or some of the batches are there and the
  -- next one failed.
  abbrev pub Inserted : List AzureVmSizeData → Outcome ℕ × S → Type 0
  Inserted xs r =
      ((r.0 ≡ returned (length xs)) × (sizes.rows r.1 ≡ held xs))
      ⊎ ((e : Exception) × (k : ℕ) × (r.0 ≡ thrown e)
          × (k * batch_size < length xs)
          × (sizes.rows r.1 ≡ held (take (k * batch_size) xs)))

  module _ (laws : IsTable sizes) where
    batch-held :
        (i : ℕ) (xs : List AzureVmSizeData)
        → insert_new sizes.key (take batch_size (drop i xs)) (held (take i xs))
          ≡ held (take (i + batch_size) xs)
    batch-held i xs =
        let a = insert_new-append sizes.key (take i xs) (take batch_size (drop i xs)) [] in
        let b = insert_new-first_of_each sizes.key (take i xs) in
        let c = insert_new-first_of_each sizes.key (take (i + batch_size) xs) in
        let d = take-add i batch_size xs in cc

    seed_batches-Inserted :
        (fuel k i n : ℕ) (xs : List AzureVmSizeData) (s : S)
        → i ≡ k * batch_size
        → n ≡ length (take i xs)
        → length xs ≤ i + fuel
        → sizes.rows s ≡ held (take i xs)
        → Inserted xs (seed_batches sizes fuel i xs n s)
    unfolding seed_batches
    seed_batches-Inserted zero k i n xs s p c h e =
        let t = take_all i xs (omega arith) in inl (ap returned (c ∙ ap length t), rw t at e)
    seed_batches-Inserted (suc fuel) k i n xs s p c h e = elim (Bool-cases (ltb i (length xs))) [
      | inr past ↦
          let t = take_all i xs (ground arith) in
          rw past (inl (ap returned (c ∙ ap length t), rw t at e))
      | inl more ↦
          let batch = take batch_size (drop i xs) in
          let rest = seed_batches sizes fuel (i + batch_size) xs (n + length batch) in
          rw more (elim (laws.created batch s) [
            | inr (x, q, r) ↦
                subst (Inserted xs) (sym (>>=-thrown (sizes.create_many batch) (λ _. rest) s x q))
                  (inr (x, k, refl, ground arith, r ∙ e ∙ ap (λ j. held (take j xs)) p))
            | inl (a, q, r) ↦
                subst (Inserted xs) (sym (>>=-returned (sizes.create_many batch) (λ _. rest) s a q))
                  (seed_batches-Inserted fuel (suc k) (i + batch_size) (n + length batch) xs
                    (sizes.create_many batch s).1 (omega (arith, p))
                    (ap (λ m. m + length batch) c
                      ∙ sym
                          (ap length (take-add i batch_size xs) ∙ length-append (take i xs) batch))
                    (omega (arith, h)) (r ∙ ap (insert_new sizes.key batch) e ∙ batch-held i xs))
          ])
    ]

  -- How the script ends for the file and the rows before it.
  pub data SizesSeeded (file : Outcome (Option (List AzureVmSizeData))) (s : S) (r : Outcome ℕ × S)
      : Type 0 where
    unread : (e : Exception) → file ≡ thrown e → r ≡ (thrown e, s) → SizesSeeded file s r
    no_array :
        file ≡ returned none
        → r ≡ (thrown (Exception.error "Invalid JSON format: expected an array"), s)
        → SizesSeeded file s r
    -- the old rows could not be deleted
    not_cleared :
        (xs : List AzureVmSizeData) (e : Exception)
        → file ≡ returned (some xs)
        → r.0 ≡ thrown e
        → sizes.rows r.1 ≡ sizes.rows s
        → SizesSeeded file s r
    inserted :
        (xs : List AzureVmSizeData)
        → file ≡ returned (some xs)
        → Inserted xs r
        → SizesSeeded file s r

  -- The script that seeds the Azure machine sizes always comes to an end. A file that cannot be
  -- read, or is no array, changes nothing and throws. Otherwise either the old rows stay and it
  -- throws; or the table ends with the first row of each name of the file, in order, and the
  -- script returns the number of the rows of the file; or it throws and the table is left with
  -- the rows of whole batches of 100 at the start of the file, and not all of it.
  pub seed_azure_vm_sizes-SizesSeeded :
      (laws : IsTable sizes) (file : Outcome (Option (List AzureVmSizeData))) (s : S)
      → SizesSeeded file s (seed_azure_vm_sizes sizes file s)
  unfolding seed_azure_vm_sizes first_of_each
  seed_azure_vm_sizes-SizesSeeded laws (thrown e) s = unread e refl refl
  seed_azure_vm_sizes-SizesSeeded laws (returned none) s = no_array refl refl
  seed_azure_vm_sizes-SizesSeeded laws (returned (some xs)) s = elim (laws.deleted (λ _. true) s) [
    | inr (x, q, r) ↦ not_cleared xs x refl (ground arith) (ground arith)
    | inl (a, q, r) ↦
        let rest = seed_batches sizes (length xs) 0 xs 0 in
        inserted xs refl (
          subst (Inserted xs) (sym (>>=-returned (sizes.delete_many (λ _. true)) (λ _. rest) s a q))
            (seed_batches-Inserted laws (length xs) 0 0 0 xs (sizes.delete_many (λ _. true) s).1
              refl refl (omega arith) (r ∙ reject_all (sizes.rows s))))
  ]
