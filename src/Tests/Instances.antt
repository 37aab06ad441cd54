-- ===== src/Tests/Instances.antt =====
-- A serverless instance that two requests reach while it is cold.
use orchestronic_be.Base.{ℕ, Option, some, List, [], ◌∷◌, ◌++◌, ◌≡◌, refl, ap, arith, length}
use orchestronic_be.Effects.Monad.{returned}
use orchestronic_be.Serverless.{App, Instance, enter, configure, publish, Resumes, arrives, resumes}
use orchestronic_be.Serverless.Answered.{times, answers, length-middle}
use orchestronic_be.Serverless.Warm.{
  Steps, IsWarm, Steps-IsWarm, Smooth, start, then_fulfilled, IsAnswering, Smooth-answered,
}

-- The handler of an application is its number.
abbrev handler_of : App → Option ℕ
handler_of app = some app

has_handler : (app : App) → (handler : ℕ) × (handler_of app ≡ some handler)
has_handler app = (app, refl)

abbrev one_answered : Instance ℕ
one_answered = record {
  cached = some 0;
  created = 2;
  creating = [];
  initialising = (2, 1) ∷ [];
  answered = (1, returned 0) ∷ [];
}

abbrev both_answered : Instance ℕ
both_answered = record {
  cached = some 1;
  created = 2;
  creating = [];
  initialising = [];
  answered = (2, returned 1) ∷ (1, returned 0) ∷ [];
}

none-middle : {A : Type 0} (xs ys : List A) (x : A) → ¬ ([] ≡ xs ++ x ∷ ys)
none-middle xs ys x e = omega (arith, ap length e, length-middle handler_of xs ys x)

both_answered-stuck : (u : Instance ℕ) → ¬ Resumes handler_of both_answered u
both_answered-stuck u (Resumes.created xs ys r e q) = none-middle xs ys r e
both_answered-stuck u (Resumes.create_failed xs ys r x e q) = none-middle xs ys r e
both_answered-stuck u (Resumes.initialised xs ys r app e q) = none-middle xs ys (r, app) e
both_answered-stuck u (Resumes.init_failed xs ys r app x e q) = none-middle xs ys (r, app) e

-- Two requests that reach the new instance create two applications.
both_smooth : Smooth handler_of has_handler (2 ∷ 1 ∷ []) both_answered
unfolding enter configure publish
both_smooth =
    then_fulfilled
      (then_fulfilled
        (then_fulfilled
          (then_fulfilled
            (then_fulfilled (then_fulfilled start (arrives 1 refl) tt) (arrives 2 refl) tt)
            (resumes (Resumes.created (2 ∷ []) [] 1 refl refl)) tt)
          (resumes (Resumes.created [] [] 2 refl refl)) tt)
        (resumes (Resumes.initialised ((2, 1) ∷ []) [] 1 0 refl refl)) tt)
      (resumes (Resumes.initialised [] [] 2 1 refl refl)) tt

Smooth-answered_example :
    ((r : ℕ) → answers handler_of r both_answered ≡ times handler_of r (2 ∷ 1 ∷ []))
    × IsAnswering handler_of has_handler both_answered
Smooth-answered_example =
    Smooth-answered handler_of has_handler (2 ∷ 1 ∷ []) both_answered both_smooth
      both_answered-stuck

-- A third request comes when the first is answered, and the second is still waiting.
abbrev third_answered : Instance ℕ
third_answered = record one_answered { answered = (3, returned 0) ∷ (1, returned 0) ∷ [] }

third_arrives : Steps handler_of has_handler one_answered third_answered
unfolding enter
third_arrives = Steps.then_step Steps.stay (arrives 3 refl)

Steps-IsWarm_example : IsWarm handler_of has_handler one_answered third_answered
Steps-IsWarm_example =
    Steps-IsWarm handler_of has_handler one_answered third_answered (0, refl) third_arrives
