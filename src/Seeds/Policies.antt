-- ===== src/Seeds/Policies.antt =====
-- What seeding the policies again and again leaves in their tables.
use mathlib.Core.List.{append_assoc, append-nil}
use orchestronic_be.Base.{
  ℕ, zero, suc, List, [], ◌∷◌, ◌++◌, ◌≡◌, refl, ◌∙◌, sym, ap, inl, inr, arith,
}
use orchestronic_be.Effects.Data.{PolicyTable, PolicyData}
use orchestronic_be.Effects.Monad.{returned, Outcome-cases}
use orchestronic_be.Seeds.Store.{
  Script, pure, ◌>>◌, PolicyStore, IsPolicyStore, Policies, set_table, Leaves, >>=-thrown,
  >>=-returned,
}
use orchestronic_be.Seeds.{policy_row, seed_policy}

abbrev pub copies : ℕ → PolicyData → List PolicyData
copies zero d = []
copies (suc n) d = d ∷ copies n d

-- What `n` more runs make of the tables: the Azure policies are replaced, the AWS ones added.
abbrev pub seeded : ℕ → Policies → Policies
seeded n f PolicyTable.aws_vm = f PolicyTable.aws_vm ++ copies n (policy_row PolicyTable.aws_vm)
seeded n f PolicyTable.aws_database =
    f PolicyTable.aws_database ++ copies n (policy_row PolicyTable.aws_database)
seeded n f PolicyTable.aws_storage =
    f PolicyTable.aws_storage ++ copies n (policy_row PolicyTable.aws_storage)
seeded zero f t = f t
seeded (suc n) f t = policy_row t ∷ []

module _ {S : Type 0} (store : PolicyStore S) where
  -- `n` runs of the script; the first that throws is the last.
  unfoldable pub seed_times : ℕ → Script S ℕ
  seed_times zero = pure 0
  seed_times (suc n) = seed_policy store >> seed_times n

  -- When the script returns, it has turned the tables by this function.
  record Turns {A : Type 0} (g : Policies → Policies) (m : Script S A) : Type 0 where
    turned : (s : S) (a : A) → (m s).0 ≡ returned a → store.rows (m s).1 ≡ g (store.rows s)

  Leaves-Turns :
      (g : Policies → Policies) (m : Script S ℕ)
      → ((s : S) → Leaves store.rows (m s) (g (store.rows s)) (store.rows s))
      → Turns g m
  Leaves-Turns g m leaves = record {
    turned =
        λ s a e. elim (leaves s) [ inl (b, q, r) ↦ r | inr (x, q, r) ↦ absurd (ground (arith)) ];
  }

  infixr 5 ◌and◌
  ◌and◌ :
      {A B : Type 0} {g k : Policies → Policies} {m : Script S A} {n : Script S B}
      → Turns g m
      → Turns k n
      → Turns (λ f. k (g f)) (m >> n)
  ◌and◌ {A} {B} {g} {k} {m} {n} tm tn = record {
    turned = λ s b e. elim (Outcome-cases (m s).0) [
      | inr (x, q) ↦ absurd (ground (arith, >>=-thrown m (λ _. n) s x q))
      | inl (a, q) ↦
          let r = >>=-returned m (λ _. n) s a q in
          ap (λ p. store.rows p.1) r ∙ tn.turned (m s).1 b (ground arith) ∙ ap k (tm.turned s a q)
    ];
  }

  module _ (laws : IsPolicyStore store) where
    deleted-Turns : (t : PolicyTable) → Turns (set_table t []) (store.delete_many t)
    deleted-Turns t = Leaves-Turns (set_table t []) (store.delete_many t) (λ s. laws.deleted t s)

    created-Turns :
        (t : PolicyTable)
        → Turns (λ f. set_table t (f t ++ policy_row t ∷ []) f) (store.create t (policy_row t))
    created-Turns t =
        Leaves-Turns (λ f. set_table t (f t ++ policy_row t ∷ []) f) (store.create t (policy_row t))
          (λ s. laws.created t (policy_row t) s)

    seed_policy-Turns :
        (s : S) (a : ℕ) (t : PolicyTable)
        → (seed_policy store s).0 ≡ returned a
        → store.rows (seed_policy store s).1 t ≡ seeded 1 (store.rows s) t
    unfolding seed_policy
    seed_policy-Turns s a t e =
        let all =
          deleted-Turns PolicyTable.azure_vm
          and deleted-Turns PolicyTable.azure_database
          and deleted-Turns PolicyTable.azure_storage
          and created-Turns PolicyTable.azure_vm
          and created-Turns PolicyTable.azure_database
          and created-Turns PolicyTable.azure_storage
          and created-Turns PolicyTable.aws_vm
          and created-Turns PolicyTable.aws_database
          and created-Turns PolicyTable.aws_storage in
        let eq = all.turned s a e in
        elim t as (λ u. store.rows (seed_policy store s).1 u ≡ seeded 1 (store.rows s) u) [
          | PolicyTable.azure_vm ↦ ap (λ f. f PolicyTable.azure_vm) eq
          | PolicyTable.azure_database ↦ ap (λ f. f PolicyTable.azure_database) eq
          | PolicyTable.azure_storage ↦ ap (λ f. f PolicyTable.azure_storage) eq
          | PolicyTable.aws_vm ↦ ap (λ f. f PolicyTable.aws_vm) eq
          | PolicyTable.aws_database ↦ ap (λ f. f PolicyTable.aws_database) eq
          | PolicyTable.aws_storage ↦ ap (λ f. f PolicyTable.aws_storage) eq
        ]

    one_more :
        (n : ℕ) (f g : Policies) (t : PolicyTable)
        → g t ≡ f t ++ policy_row t ∷ []
        → g t ++ copies n (policy_row t) ≡ f t ++ copies (suc n) (policy_row t)
    one_more n f g t e = rw e (append_assoc (f t) (policy_row t ∷ []) (copies n (policy_row t)))

    seeded-seeded :
        (n : ℕ) (f g : Policies)
        → ((t : PolicyTable) → g t ≡ seeded 1 f t)
        → (t : PolicyTable) → seeded n g t ≡ seeded (suc n) f t
    seeded-seeded n f g e PolicyTable.aws_vm =
        one_more n f g PolicyTable.aws_vm (e PolicyTable.aws_vm)
    seeded-seeded n f g e PolicyTable.aws_database =
        one_more n f g PolicyTable.aws_database (e PolicyTable.aws_database)
    seeded-seeded n f g e PolicyTable.aws_storage =
        one_more n f g PolicyTable.aws_storage (e PolicyTable.aws_storage)
    seeded-seeded zero f g e PolicyTable.azure_vm = e PolicyTable.azure_vm
    seeded-seeded (suc n) f g e PolicyTable.azure_vm = refl
    seeded-seeded zero f g e PolicyTable.azure_database = e PolicyTable.azure_database
    seeded-seeded (suc n) f g e PolicyTable.azure_database = refl
    seeded-seeded zero f g e PolicyTable.azure_storage = e PolicyTable.azure_storage
    seeded-seeded (suc n) f g e PolicyTable.azure_storage = refl

    -- When `n` runs of the policy seed have returned, each Azure policy table holds the one seeded
    -- row (for `n` at least 1), while each AWS policy table holds the rows that it had before and
    -- `n` copies of the seeded row: the script clears only the Azure tables.
    pub seed_times-seeded :
        (n : ℕ) (s : S) (a : ℕ) (t : PolicyTable)
        → (seed_times n s).0 ≡ returned a
        → store.rows (seed_times n s).1 t ≡ seeded n (store.rows s) t
    unfolding seed_times
    seed_times-seeded zero s a PolicyTable.aws_vm e = sym (append-nil _)
    seed_times-seeded zero s a PolicyTable.aws_database e = sym (append-nil _)
    seed_times-seeded zero s a PolicyTable.aws_storage e = sym (append-nil _)
    seed_times-seeded zero s a PolicyTable.azure_vm e = refl
    seed_times-seeded zero s a PolicyTable.azure_database e = refl
    seed_times-seeded zero s a PolicyTable.azure_storage e = refl
    seed_times-seeded (suc n) s a t e = elim (Outcome-cases (seed_policy store s).0) [
      | inr (x, q) ↦
          absurd (ground (arith, >>=-thrown (seed_policy store) (λ _. seed_times n) s x q))
      | inl (b, q) ↦
          let r = >>=-returned (seed_policy store) (λ _. seed_times n) s b q in
          ap (λ p. store.rows p.1 t) r
          ∙ seed_times-seeded n (seed_policy store s).1 a t (ground arith)
          ∙ seeded-seeded n (store.rows s) (store.rows (seed_policy store s).1)
              (λ u. seed_policy-Turns s b u q) t
    ]
