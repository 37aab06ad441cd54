-- ===== src/Storage/Blobs.antt =====
-- How many names a limited list of blobs gives.
use orchestronic_be.Base.{
  ℕ, ◌-◌, ◌≤◌, suc, zero, some, List, [], ◌∷◌, ◌≡◌, inl, inr, arith, Bool-cases, leb,
}
use orchestronic_be.Base.Lists.{length, take}
use orchestronic_be.Base.Text.{Text}
use orchestronic_be.Effects.Calls.{History}
use orchestronic_be.Effects.Monad.{returned, Outcome-cases}
use orchestronic_be.Storage.{
  Listing, done, failed, next, Container, collect, dag_prefix, list_blobs_for_dag,
}

-- The names of a listing, as far as it goes.
abbrev pub names_of : Listing → List Text
names_of done = []
names_of (failed e) = []
names_of (next name rest) = name ∷ names_of rest

-- With fewer names than the limit read so far, the loop reads as many as are left, and at least one.
collect-take :
    (m count : ℕ) (listing : Listing) (names : List Text)
    → collect (some m) count listing ≡ returned names
    → names ≡ take (suc (m - suc count)) (names_of listing)
unfolding collect
collect-take m count done names e = ground arith
collect-take m count (failed x) names e = absurd (ground arith)
collect-take m count (next name rest) names e = elim (Bool-cases (leb m (suc count))) [
  | inl last ↦ let z : m - suc count ≡ 0 = ground arith in rw z (ground arith)
  | inr more ↦ elim (Outcome-cases (collect (some m) (suc count) rest)) [
    | inr (x, q) ↦ absurd (ground arith)
    | inl (ns, q) ↦
        let r = collect-take m (suc count) rest ns q in
        let z : m - suc count ≡ suc (m - suc (suc count)) = ground arith in rw z (ground arith)
  ]
]

length-take : (n : ℕ) (xs : List Text) → length (take n xs) ≤ n
length-take zero xs = omega arith
length-take (suc n) [] = omega arith
length-take (suc n) (x ∷ xs) = omega (arith, length-take n xs)

-- A list of blobs with a limit that returns has the first names with the prefix of the DAG, in
-- order: as many as the limit, or all if there are fewer, and with the limit 0 as with 1; so its
-- length is at most the limit, or 1.
pub list_blobs_for_dag-take :
    (container : Container) (dag_id : Text) (m : ℕ) (h : History) (names : List Text)
    → (list_blobs_for_dag container dag_id (some m) h).0 ≡ returned names
    → (names ≡ take (suc (m - 1)) (names_of (container.list_blobs (dag_prefix dag_id) h)))
      × (length names ≤ suc (m - 1))
unfolding list_blobs_for_dag
list_blobs_for_dag-take container dag_id m h names e =
    let same = collect-take m 0 (container.list_blobs (dag_prefix dag_id) h) names e in
    let all = names_of (container.list_blobs (dag_prefix dag_id) h) in
    (same, rw same (length-take (suc (m - 1)) all))
