-- ===== src/Serverless.antt =====
-- `getVercelHandler` and `handler` of src/main.ts: the application that one serverless instance
-- keeps for all requests. The event loop runs one segment between two `await`s at a time, so the
-- segments of several requests interleave.
pub mod Answered
pub mod Warm
use orchestronic_be.Base.{ℕ, ◌+◌, Option, none, some, List, [], ◌∷◌, ◌++◌, ◌≡◌}
use orchestronic_be.Effects.Monad.{Exception, Outcome, returned, thrown}

-- A request by a number, and an application by the order of its creation.
abbrev pub RequestId : Type 0
RequestId = ℕ

abbrev pub App : Type 0
App = ℕ

module _ (Handler : Type 0) where
  -- `cachedHttpHandler`, the applications created so far, the requests that wait for
  -- `NestFactory.create` and for `app.init`, and the requests that are answered: by a handler, or
  -- by an exception.
  pub record Instance : Type 0 where
    pub cached : Option Handler
    pub created : ℕ
    pub creating : List RequestId
    pub initialising : List (RequestId × App)
    pub answered : List (RequestId × Outcome Handler)

module _ {Handler : Type 0} where
  abbrev pub answer : RequestId → Outcome Handler → Instance Handler → Instance Handler
  answer r o s = record s { answered = (r, o) ∷ s.answered }

  -- Up to `await NestFactory.create`.
  unfoldable pub enter : RequestId → Instance Handler → Instance Handler
  enter r s = elim s.cached [
    | some http_handler ↦ answer r (returned http_handler) s
    | none ↦ record s { creating = r ∷ s.creating }
  ]

  -- From there, with `configureApp`, up to `await app.init()`.
  unfoldable pub configure : RequestId → Instance Handler → Instance Handler
  configure r s = record s {
    created = s.created + 1;
    initialising = (r, s.created) ∷ s.initialising;
  }

  -- `if (!cachedHttpHandler) throw`
  abbrev pub checked : Option Handler → Outcome Handler
  checked none = thrown (Exception.error "Failed to initialize HTTP handler")
  checked (some http_handler) = returned http_handler

  -- From there to the end; `get_instance` is the HTTP handler of an application.
  unfoldable pub publish :
      (App → Option Handler) → RequestId → App → Instance Handler → Instance Handler
  publish get_instance r app s =
      answer r (checked (get_instance app)) (record s { cached = get_instance app })

  -- A step of a request that waits: its promise is fulfilled or rejected.
  pub data Resumes (get_instance : App → Option Handler) (s t : Instance Handler) : Type 0 where
    created :
        (xs ys : List RequestId) (r : RequestId)
        → s.creating ≡ xs ++ r ∷ ys
        → t ≡ configure r (record s { creating = xs ++ ys })
        → Resumes get_instance s t
    create_failed :
        (xs ys : List RequestId) (r : RequestId) (e : Exception)
        → s.creating ≡ xs ++ r ∷ ys
        → t ≡ answer r (thrown e) (record s { creating = xs ++ ys })
        → Resumes get_instance s t
    initialised :
        (xs ys : List (RequestId × App)) (r : RequestId) (app : App)
        → s.initialising ≡ xs ++ (r, app) ∷ ys
        → t ≡ publish get_instance r app (record s { initialising = xs ++ ys })
        → Resumes get_instance s t
    init_failed :
        (xs ys : List (RequestId × App)) (r : RequestId) (app : App) (e : Exception)
        → s.initialising ≡ xs ++ (r, app) ∷ ys
        → t ≡ answer r (thrown e) (record s { initialising = xs ++ ys })
        → Resumes get_instance s t

  -- A step of the instance: a request arrives, or one that waits goes on.
  pub data Step (get_instance : App → Option Handler) (s t : Instance Handler) : Type 0 where
    arrives : (r : RequestId) → t ≡ enter r s → Step get_instance s t
    resumes : Resumes get_instance s t → Step get_instance s t

  -- The state of a new process.
  abbrev pub cold : Instance Handler
  cold = record { cached = none; created = 0; creating = []; initialising = []; answered = [] }
