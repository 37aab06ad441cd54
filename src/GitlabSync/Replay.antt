-- ===== src/GitlabSync/Replay.antt =====
-- What a synchronisation does to the two sides: the calls of a history are replayed on a store of
-- the projects of GitLab and the repositories of the database.
use orchestronic_be.Base.{
  ℕ, String, List, [], ◌∷◌, ◌≡◌, inl, inr, refl, arith, Bool, true, false, not, ◌&&◌, ◌==◌, ◌===◌,
  map, if◌then◌else◌, Bool-cases, All, ap, ◌∙◌,
}
use text.Mathlib.TextEquality.{eq_iff}
use orchestronic_be.Schema.{RepositoryRow}
use orchestronic_be.Effects.Calls.{Call, Write, GitlabCall, History}
use orchestronic_be.Effects.Monad.{returned, for_each}
use orchestronic_be.Gitlab.{GitlabProject}
use orchestronic_be.GitlabSync.{
  SyncOutside, included, keep_named, project_name, repository_name, beyond, delete_from_gitlab,
  delete_from_db,
}

pub record Store : Type 0 where
  pub projects : List GitlabProject
  pub repositories : List RepositoryRow

unfoldable pub without_id : ℕ → List GitlabProject → List GitlabProject
without_id id [] = []
without_id id (p ∷ ps) = let rest = without_id id ps in if p.id == id then rest else p ∷ rest

-- What a call does to the store.
abbrev pub apply : Call → Store → Store
apply (Call.gitlab (GitlabCall.delete_project id)) s = record s {
  projects = without_id id s.projects;
}
apply (Call.write (Write.delete_repository name)) s = record s {
  repositories = keep_named repository_name (λ n. not (name === n)) s.repositories;
}
apply _ s = s

abbrev pub replay : Store → History → Store
replay start [] = start
replay start (c ∷ h) = apply c (replay start h)

-- A name is one of a list of kept items exactly when it is one of the list and passes the test.
pub included-keep_named :
    {A : Type 0} (name_of : A → String) (test : String → Bool) (xs : List A) (n : String)
    → included (map name_of (keep_named name_of test xs)) n
      ≡ (included (map name_of xs) n && test n)
unfolding included keep_named
included-keep_named name_of test [] n = refl
included-keep_named name_of test (x ∷ xs) n =
    let rest = included-keep_named name_of test xs n in
    elim (Bool-cases (name_of x === n)) [
      | inl same ↦
          let t : test (name_of x) ≡ test n = ap test ((eq_iff (name_of x) n).0 same) in
          elim (Bool-cases (test (name_of x))) [ inl q ↦ ground arith | inr q ↦ ground arith ]
      | inr other ↦ elim (Bool-cases (test (name_of x))) [
        | inl q ↦ ground arith
        | inr q ↦ ground arith
      ]
    ]

-- The ids of a list of projects differ.
abbrev pub UniqueIds : List GitlabProject → Type 0
UniqueIds [] = Unit
UniqueIds (p ∷ ps) = All (λ q. (q.id == p.id) ≡ false) ps × UniqueIds ps

-- The projects that are left when those of a list are deleted one after the other.
unfoldable pub without_all : List GitlabProject → List GitlabProject → List GitlabProject
without_all [] ps = ps
without_all (x ∷ xs) ps = without_all xs (without_id x.id ps)

unfoldable pub rows_without : List RepositoryRow → List RepositoryRow → List RepositoryRow
rows_without [] rs = rs
rows_without (x ∷ xs) rs = rows_without xs (keep_named repository_name (λ n. not (x.name === n)) rs)

-- A list whose ids all differ from a deleted one stays.
without_id-All :
    (id : ℕ) (ps : List GitlabProject) → All (λ q. (q.id == id) ≡ false) ps → without_id id ps ≡ ps
unfolding without_id
without_id-All id [] d = refl
without_id-All id (p ∷ ps) d = let rest = without_id-All id ps d.1 in ground arith

keep_named-All :
    (P : GitlabProject → Type 0) (test : String → Bool) (ps : List GitlabProject)
    → All P ps
    → All P (keep_named project_name test ps)
unfolding keep_named
keep_named-All P test [] a = tt
keep_named-All P test (p ∷ ps) a =
    let rest = keep_named-All P test ps a.1 in
    elim (Bool-cases (test (project_name p))) [ inl q ↦ rw q (a.0, rest) | inr q ↦ rw q rest ]

-- Deleting projects that have other ids than the first leaves the first.
without_all-cons :
    (p : GitlabProject) (xs ps : List GitlabProject)
    → All (λ q. (q.id == p.id) ≡ false) xs
    → without_all xs (p ∷ ps) ≡ p ∷ without_all xs ps
unfolding without_all without_id
without_all-cons p [] ps d = refl
without_all-cons p (x ∷ xs) ps d =
    let rest = without_all-cons p xs (without_id x.id ps) d.1 in
    let other : (p.id == x.id) ≡ false = ground arith in rw other rest

-- With different ids, deleting the projects without a repository leaves those with one.
pub without_all-beyond :
    (names : List String) (ps : List GitlabProject)
    → UniqueIds ps
    → without_all (beyond project_name names ps) ps ≡ keep_named project_name (included names) ps
unfolding without_all without_id keep_named
without_all-beyond names [] u = refl
without_all-beyond names (p ∷ ps) u = elim (Bool-cases (included names p.name)) [
  | inl kept ↦
      let d = keep_named-All (λ q. (q.id == p.id) ≡ false) (λ n. not (included names n)) ps u.0 in
      rw kept (
        without_all-cons p (beyond project_name names ps) ps d
        ∙ ap (λ qs. p ∷ qs) (without_all-beyond names ps u.1))
  | inr dropped ↦
      let same : (p.id == p.id) ≡ true = ground arith in
      rw (dropped, same, without_id-All p.id ps u.0) (without_all-beyond names ps u.1)
]

-- The rows that are left: those whose name is no name of a deleted row.
pub rows_without-keep_named :
    (xs rs : List RepositoryRow) (n : String)
    → included (map repository_name (rows_without xs rs)) n
      ≡ (included (map repository_name rs) n && not (included (map repository_name xs) n))
unfolding rows_without included
rows_without-keep_named [] rs n = ground arith
rows_without-keep_named (x ∷ xs) rs n =
    let rest =
      rows_without-keep_named xs (keep_named repository_name (λ m. not (x.name === m)) rs) n in
    let kept = included-keep_named repository_name (λ m. not (x.name === m)) rs n in ground arith

-- A server that gives all its projects in one answer and a database that gives all its rows, which
-- both delete what they are asked to: what they say is the store after the calls so far.
pub record Serves (out : SyncOutside) (start : Store) : Type 0 where
  pub listed :
      (h : History)
      → out.projects h
        ≡ returned (record { ok = true; text = ""; json = returned (replay start h).projects })
  pub rows : (h : History) → out.repositories h ≡ returned (replay start h).repositories
  pub removes : (id : ℕ) (h : History) → out.delete_project id h ≡ returned tt
  pub deletes :
      (n : String) (h : History) → (r : RepositoryRow) × (out.delete_repository n h ≡ returned r)

module _ (out : SyncOutside) (start : Store) (serves : Serves out start) where
  pub projects_loop :
      (xs : List GitlabProject) (h : History)
      → ((for_each (delete_from_gitlab out) xs h).0 ≡ returned tt)
        × ((replay start (for_each (delete_from_gitlab out) xs h).1).projects
            ≡ without_all xs (replay start h).projects)
        × ((replay start (for_each (delete_from_gitlab out) xs h).1).repositories
            ≡ (replay start h).repositories)
  unfolding for_each delete_from_gitlab without_all
  projects_loop [] h = (refl, refl, refl)
  projects_loop (x ∷ xs) h = projects_loop xs (Call.gitlab (GitlabCall.delete_project x.id) ∷ h)

  pub rows_loop :
      (xs : List RepositoryRow) (h : History)
      → ((replay start (for_each (delete_from_db out) xs h).1).repositories
          ≡ rows_without xs (replay start h).repositories)
        × ((replay start (for_each (delete_from_db out) xs h).1).projects
            ≡ (replay start h).projects)
  unfolding for_each delete_from_db rows_without
  rows_loop [] h = (refl, refl)
  rows_loop (x ∷ xs) h =
      let (r, q) = serves.deletes x.name h in
      let (a, b) = rows_loop xs (Call.write (Write.delete_repository x.name) ∷ h) in
      (ground arith, ground arith)
