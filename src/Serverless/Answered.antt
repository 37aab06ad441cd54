-- ===== src/Serverless/Answered.antt =====
-- The requests that wait and those that are answered, counted over the steps.
use orchestronic_be.Base.{
  ℕ, suc, ◌+◌, Option, List, [], ◌∷◌, ◌++◌, ◌≡◌, refl, arith, length, ◌==◌, if◌then◌else◌,
}
use orchestronic_be.Serverless.{RequestId, App, Instance, configure, publish, Resumes}

module _ {Handler : Type 0} (get_instance : App → Option Handler) where
  -- Whether this is the request, as a number, and how often the request is there.
  abbrev pub one : RequestId → RequestId → ℕ
  one r q = if q == r then 1 else 0

  unfoldable pub times : RequestId → List RequestId → ℕ
  times r [] = 0
  times r (q ∷ qs) = one r q + times r qs

  unfoldable pub times_in : {A : Type 0} → RequestId → List (RequestId × A) → ℕ
  times_in r [] = 0
  times_in r ((q, _) ∷ ps) = one r q + times_in r ps

  abbrev pub waits : RequestId → Instance Handler → ℕ
  waits r s = times r s.creating + times_in r s.initialising

  abbrev pub answers : RequestId → Instance Handler → ℕ
  answers r s = times_in r s.answered

  pub length-middle :
      {A : Type 0} (xs ys : List A) (x : A) → length (xs ++ x ∷ ys) ≡ suc (length (xs ++ ys))
  length-middle [] ys x = refl
  length-middle (y ∷ xs) ys x = rw (length-middle xs ys x)

  times-middle :
      (r q : RequestId) (xs ys : List RequestId)
      → times r (xs ++ q ∷ ys) ≡ one r q + times r (xs ++ ys)
  unfolding times
  times-middle r q [] ys = refl
  times-middle r q (y ∷ xs) ys = omega (arith, times-middle r q xs ys)

  times_in-middle :
      {A : Type 0} (r q : RequestId) (a : A) (xs ys : List (RequestId × A))
      → times_in r (xs ++ (q, a) ∷ ys) ≡ one r q + times_in r (xs ++ ys)
  unfolding times_in
  times_in-middle r q a [] ys = refl
  times_in-middle r q a ((y, b) ∷ xs) ys = omega (arith, times_in-middle r q a xs ys)

  -- A step answers a request that waited, or leaves it waiting.
  pub Resumes-waits :
      (s t : Instance Handler)
      → Resumes get_instance s t
      → (r : RequestId) → answers r t + waits r t ≡ answers r s + waits r s
  unfolding configure publish times times_in
  Resumes-waits s t (Resumes.created xs ys q e eq) r = ground (arith, times-middle r q xs ys)
  Resumes-waits s t (Resumes.create_failed xs ys q x e eq) r =
      ground (arith, times-middle r q xs ys)
  Resumes-waits s t (Resumes.initialised xs ys q app e eq) r =
      ground (arith, times_in-middle r q app xs ys)
  Resumes-waits s t (Resumes.init_failed xs ys q app x e eq) r =
      ground (arith, times_in-middle r q app xs ys)

  -- While a request waits, a step is there to be made.
  pub progress :
      (t : Instance Handler)
      → ((u : Instance Handler) → ¬ Resumes get_instance t u)
      → (r : RequestId) → waits r t ≡ 0
  unfolding times times_in
  progress t stuck r = go t.creating t.initialising refl refl
    where
      go :
          (cs : List RequestId) (is : List (RequestId × App))
          → t.creating ≡ cs
          → t.initialising ≡ is
          → waits r t ≡ 0
      go [] [] c i = rw (c, i) refl
      go (q ∷ cs) is c i = absurd (stuck _ (Resumes.created [] cs q c refl))
      go [] ((q, app) ∷ is) c i = absurd (stuck _ (Resumes.initialised [] is q app i refl))
