-- ===== src/Effects/Monad.antt =====
-- Actions: they extend the history and return or throw.
use orchestronic_be.Base.{
  ℕ, Bool, true, false, String, List, [], ◌∷◌, ◌≡◌, ◌⊎◌, inl, inr, refl, arith, Option,
}
use orchestronic_be.Effects.Calls.{Call, History}

-- The NestJS exceptions by class, a plain `Error`, the errors of the runtime, and those of the
-- client libraries (Prisma, axios, fetch) by their code or message.
pub data Exception : Type 0 where
  bad_request unauthorized forbidden not_found conflict internal_server_error : String → Exception
  error type_error client_error : String → Exception
  -- `HttpException` with the status that it carries
  http_exception : ℕ → String → Exception

pub data Outcome {ℓ} (A : Type ℓ) : Type ℓ where
  returned : A → Outcome A
  thrown : Exception → Outcome A

abbrev pub Action : Type 0 → Type 0
Action A = History → Outcome A × History

module _ {A : Type 0} where
  abbrev pub pure : A → Action A
  pure a h = (returned a, h)

  abbrev pub throw : Exception → Action A
  throw e h = (thrown e, h)

  -- One call: the environment answers from the history before it.
  abbrev pub perform : Call → (History → Outcome A) → Action A
  perform c answer h = (answer h, c ∷ h)

infixl 5 ◌>>=◌ ◌>>◌
abbrev pub ◌>>=◌ : {A B : Type 0} → Action A → (A → Action B) → Action B
◌>>=◌ m f h = let (o, h') = m h in elim o [ returned a ↦ f a h' | thrown e ↦ (thrown e, h') ]

abbrev pub ◌>>◌ : {A B : Type 0} → Action A → Action B → Action B
m >> k = m >>= λ _. k

-- `if (test) throw e;`
abbrev pub throw_if : Bool → Exception → Action (Unit {0})
throw_if true e = throw e
throw_if false e = pure tt

-- `try { return await m } catch { throw e }`
abbrev pub rethrow_as : {A : Type 0} → Exception → Action A → Action A
rethrow_as x m h =
    let (o, h') = m h in elim o [ returned a ↦ (returned a, h') | thrown _ ↦ (thrown x, h') ]

-- A promise that is started and not awaited: its calls are made, its end is ignored.
abbrev pub detach : {A : Type 0} → Action A → Action (Unit {0})
detach m h = (returned tt, (m h).1)

-- The answer to an axios request: the data, or an error with the status of the response, if any.
pub data AxiosReply (D : Type 0) : Type 0 where
  data_of : D → AxiosReply D
  failed : Option ℕ → AxiosReply D

-- The answer to a `fetch`.
pub record Response (D : Type 0) : Type 0 where
  pub ok : Bool
  pub text : String
  pub json : Outcome D

-- `for (const x of xs) await f(x);`
unfoldable pub for_each : {A B : Type 0} → (A → Action B) → List A → Action (Unit {0})
for_each f [] = pure tt
for_each f (x ∷ xs) = f x >> for_each f xs

pub Outcome-cases {ℓ} :
    {A : Type ℓ} (o : Outcome A) → ((a : A) × (o ≡ returned a)) ⊎ ((e : Exception) × (o ≡ thrown e))
Outcome-cases (returned a) = inl (a, refl)
Outcome-cases (thrown e) = inr (e, refl)

-- An action that returned, made of two: the first returned, and so did the second after it.
pub >>=-eq-returned :
    {A B : Type 0} (m : Action A) (f : A → Action B) (h : History) {b : B}
    → ((m >>= f) h).0 ≡ returned b
    → (a : A) × ((m h).0 ≡ returned a) × (((m >>= f) h) ≡ f a (m h).1)
>>=-eq-returned m f h {b} e = elim (Outcome-cases (m h).0) [
  | inl (a, q) ↦ (a, q, ground arith)
  | inr (x, q) ↦ absurd (cc (rw (q, ◌>>=◌) at e))
]

-- An action that leaves a view of the history as it was, however it ends.
abbrev pub Keeps {ℓ} : {V : Type ℓ} → (History → V) → {A : Type 0} → Action A → Type ℓ
Keeps view m = (h : History) → view (m h).1 ≡ view h

pub >>=-Keeps {ℓ} :
    {V : Type ℓ} (view : History → V) {A B : Type 0} (m : Action A) (f : A → Action B)
    → Keeps view m
    → ((a : A) → Keeps view (f a))
    → Keeps view (m >>= f)
>>=-Keeps view m f km kf h = elim (Outcome-cases (m h).0) [
  | inl (a, q) ↦ ground (arith, kf a (m h).1, km h)
  | inr (e, q) ↦ ground (arith, km h)
]

pub for_each-Keeps {ℓ} :
    {V : Type ℓ} (view : History → V) {A B : Type 0} (f : A → Action B) (xs : List A)
    → ((a : A) → Keeps view (f a))
    → Keeps view (for_each f xs)
unfolding for_each
for_each-Keeps view f [] kf h = refl
for_each-Keeps view f (x ∷ xs) kf h =
    >>=-Keeps view (f x) (λ _. for_each f xs) (kf x) (λ _. for_each-Keeps view f xs kf) h

pub AxiosReply-cases :
    {D : Type 0} (r : AxiosReply D)
    → ((d : D) × (r ≡ data_of d)) ⊎ ((c : Option ℕ) × (r ≡ failed c))
AxiosReply-cases (data_of d) = inl (d, refl)
AxiosReply-cases (failed c) = inr (c, refl)
