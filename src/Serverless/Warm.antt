-- ===== src/Serverless/Warm.antt =====
-- An instance whose handler is cached creates no application for a new request, and requests fail
-- only when a promise is rejected.
use mathlib.Core.Path.{subst}
use orchestronic_be.Base.{
  ℕ, ◌+◌, ◌≤◌, Option, some, List, [], ◌∷◌, ◌≡◌, ◌⊎◌, refl, sym, ◌∙◌, arith, length, All, inl, inr,
  Option-cases,
}
use orchestronic_be.Effects.Monad.{returned, Outcome}
use orchestronic_be.Serverless.{
  RequestId, App, Instance, enter, configure, publish, Resumes, Step, arrives, resumes, cold,
}
use orchestronic_be.Serverless.Answered.{
  length-middle, one, times, times_in, answers, waits, Resumes-waits, progress,
}

module _ {Handler : Type 0} (get_instance : App → Option Handler)
    (works : (app : App) → (handler : Handler) × (get_instance app ≡ some handler)) where
  abbrev pub IsCached : Instance Handler → Type 0
  IsCached s = (handler : Handler) × (s.cached ≡ some handler)

  pub data Steps (s : Instance Handler) : Instance Handler → Type 0 where
    stay : Steps s s
    then_step : {t u : Instance Handler} → Steps s t → Step get_instance t u → Steps s u

  -- How many applications there are or will be, and how many requests wait.
  abbrev pub applications : Instance Handler → ℕ
  applications s = s.created + length s.creating

  abbrev pub waiting : Instance Handler → ℕ
  waiting s = length s.creating + length s.initialising

  -- The cache is set, and neither number is larger.
  pub record IsWarm (s t : Instance Handler) : Type 0 where
    pub cached : IsCached t
    pub no_more_applications : applications t ≤ applications s
    pub no_more_waiting : waiting t ≤ waiting s

  Step-IsWarm : (s t : Instance Handler) → IsCached s → Step get_instance s t → IsWarm s t
  unfolding enter configure publish
  Step-IsWarm s t (h, c) (arrives r q) = record {
    cached = (h, ground arith);
    no_more_applications = ground arith;
    no_more_waiting = ground arith;
  }
  Step-IsWarm s t (h, c) (resumes (Resumes.created xs ys r e q)) = record {
    cached = (h, ground arith);
    no_more_applications = ground (arith, length-middle get_instance xs ys r);
    no_more_waiting = ground (arith, length-middle get_instance xs ys r);
  }
  Step-IsWarm s t (h, c) (resumes (Resumes.create_failed xs ys r x e q)) = record {
    cached = (h, ground arith);
    no_more_applications = ground (arith, length-middle get_instance xs ys r);
    no_more_waiting = ground (arith, length-middle get_instance xs ys r);
  }
  Step-IsWarm s t (h, c) (resumes (Resumes.initialised xs ys r app e q)) =
      let (h', w) = works app in
      record {
        cached = (h', ground arith);
        no_more_applications = ground (arith, length-middle get_instance xs ys (r, app));
        no_more_waiting = ground (arith, length-middle get_instance xs ys (r, app));
      }
  Step-IsWarm s t (h, c) (resumes (Resumes.init_failed xs ys r app x e q)) = record {
    cached = (h, ground arith);
    no_more_applications = ground (arith, length-middle get_instance xs ys (r, app));
    no_more_waiting = ground (arith, length-middle get_instance xs ys (r, app));
  }

  -- If every application has a handler: once one is cached, one stays cached, and however many
  -- requests arrive after that, in whatever order they and those that wait go on, and whichever
  -- promises are rejected, the applications that were created and those that are still to come
  -- are together no more than they were, and no more requests wait than did.
  pub Steps-IsWarm : (s t : Instance Handler) → IsCached s → Steps s t → IsWarm s t
  Steps-IsWarm s t c stay = record {
    cached = c;
    no_more_applications = omega arith;
    no_more_waiting = omega arith;
  }
  Steps-IsWarm s u c (then_step {t = t} steps step) =
      let before = Steps-IsWarm s t c steps in
      let after = Step-IsWarm t u before.cached step in
      record {
        cached = after.cached;
        no_more_applications =
            omega (arith, before.no_more_applications, after.no_more_applications);
        no_more_waiting = omega (arith, before.no_more_waiting, after.no_more_waiting);
      }

  -- The step is no rejection of a promise.
  abbrev pub IsFulfilled : {s t : Instance Handler} → Step get_instance s t → Type 0
  IsFulfilled (arrives r q) = Unit
  IsFulfilled (resumes (Resumes.created xs ys r e q)) = Unit
  IsFulfilled (resumes (Resumes.create_failed xs ys r x e q)) = ⊥
  IsFulfilled (resumes (Resumes.initialised xs ys r app e q)) = Unit
  IsFulfilled (resumes (Resumes.init_failed xs ys r app x e q)) = ⊥

  -- The requests that a step brings, before those that came.
  abbrev arriving :
      {s t : Instance Handler} → Step get_instance s t → List RequestId → List RequestId
  arriving (arrives r q) before = r ∷ before
  arriving (resumes step) before = before

  -- Runs of a new instance without a rejection, by the requests that arrived and the state.
  pub data Smooth : List RequestId → Instance Handler → Type 0 where
    start : Smooth [] cold
    then_fulfilled :
        {arrived : List RequestId} {s t : Instance Handler}
        → Smooth arrived s
        → (step : Step get_instance s t) → IsFulfilled step
        → Smooth (arriving step arrived) t

  abbrev HasHandler : RequestId × Outcome Handler → Type 0
  HasHandler p = (handler : Handler) × (p.1 ≡ returned handler)

  -- Every answer is a handler, and the cache is set if there is one.
  abbrev pub IsAnswering : Instance Handler → Type 0
  IsAnswering s = All HasHandler s.answered × ((s.answered ≡ []) ⊎ IsCached s)

  enter-IsAnswering :
      (r : RequestId) (s : Instance Handler) → IsAnswering s → IsAnswering (enter r s)
  unfolding enter
  enter-IsAnswering r s (all, or) = elim (Option-cases s.cached) [
    | inl nothing ↦
        let t = record s { creating = r ∷ s.creating } in
        let eq : enter r s ≡ t = ground arith in subst IsAnswering (sym eq) (all, or)
    | inr (h, e) ↦
        let t = record s { answered = (r, returned h) ∷ s.answered } in
        let eq : enter r s ≡ t = ground arith in
        subst IsAnswering (sym eq) (((h, refl), all), inr (h, e))
  ]

  Smooth-IsAnswering :
      {arrived : List RequestId} {t : Instance Handler} → Smooth arrived t → IsAnswering t
  unfolding configure publish
  Smooth-IsAnswering start = (tt, inl refl)
  Smooth-IsAnswering (then_fulfilled {s = s} smooth (arrives r q) f) =
      subst IsAnswering (sym q) (enter-IsAnswering r s (Smooth-IsAnswering smooth))
  Smooth-IsAnswering (then_fulfilled {s = s} smooth (resumes (Resumes.created xs ys r e q)) f) =
      subst IsAnswering (sym q) (Smooth-IsAnswering smooth)
  Smooth-IsAnswering (then_fulfilled smooth (resumes (Resumes.create_failed xs ys r x e q)) f) =
      absurd f
  Smooth-IsAnswering
        (then_fulfilled {s = s} smooth (resumes (Resumes.initialised xs ys r app e q)) f) =
      let (h, w) = works app in
      let (all, or) = Smooth-IsAnswering smooth in
      subst IsAnswering (sym q) (((h, rw w refl), all), inr (h, w))
  Smooth-IsAnswering (then_fulfilled smooth (resumes (Resumes.init_failed xs ys r app x e q)) f) =
      absurd f

  enter-waits :
      (r q : RequestId) (s : Instance Handler)
      → answers get_instance r (enter q s) + waits get_instance r (enter q s)
        ≡ one get_instance r q + (answers get_instance r s + waits get_instance r s)
  unfolding enter times times_in
  enter-waits r q s = elim (Option-cases s.cached) [
    | inl nothing ↦ ground arith
    | inr (h, e) ↦ ground arith
  ]

  Smooth-waits :
      {arrived : List RequestId} {t : Instance Handler}
      → Smooth arrived t
      → (r : RequestId)
      → answers get_instance r t + waits get_instance r t ≡ times get_instance r arrived
  unfolding times times_in
  Smooth-waits start r = refl
  Smooth-waits (then_fulfilled {s = s} smooth (arrives q e) f) r =
      rw e (omega (arith, enter-waits r q s, Smooth-waits smooth r))
  Smooth-waits (then_fulfilled {s = s} {t = t} smooth (resumes step) f) r =
      Resumes-waits get_instance s t step r ∙ Smooth-waits smooth r

  -- When a new instance has run without the rejection of a promise and no request can go on, in
  -- whatever order they arrived and went on, then, if every application has a handler: each request
  -- has been answered as often as it arrived, every answer is a handler and no exception, and a
  -- handler is cached unless no request was answered.
  pub Smooth-answered :
      (arrived : List RequestId) (t : Instance Handler)
      → Smooth arrived t
      → ((u : Instance Handler) → ¬ Resumes get_instance t u)
      → ((r : RequestId) → answers get_instance r t ≡ times get_instance r arrived) × IsAnswering t
  Smooth-answered arrived t smooth stuck = (
    λ r. omega (arith, Smooth-waits smooth r, progress get_instance t stuck r),
    Smooth-IsAnswering smooth,
  )
