-- ===== src/Effects/Added.antt =====
-- What an action adds to the history, however it ends, with the rules for the actions that the
-- handlers are made of.
use orchestronic_be.Base.{List, [], ◌∷◌, ◌++◌, ◌≡◌, inl, inr, refl, arith, Bool, true, false, All}
use orchestronic_be.Base.Lists.{All-append}
use mathlib.Core.List.{append_assoc}
use orchestronic_be.Effects.Calls.{Call, History}
use orchestronic_be.Effects.Monad.{
  Exception, Outcome, Action, pure, throw, perform, ◌>>=◌, throw_if, rethrow_as, Outcome-cases,
}

-- An action that, however it ends, adds to the history calls that satisfy a predicate.
pub record Adds {ℓ} (P : Call → Type ℓ) {A : Type 0} (m : Action A) : Type ℓ where
  pub added : (h : History) → (cs : List Call) × ((m h).1 ≡ cs ++ h) × All P cs

module _ {ℓ} {P : Call → Type ℓ} where
  pub perform-Adds :
      {A : Type 0} (c : Call) (answer : History → Outcome A) → P c → Adds P (perform c answer)
  perform-Adds c answer p = record { added = λ h. (c ∷ [], refl, (p, tt)) }

  pub >>=-Adds :
      {A B : Type 0} (m : Action A) (f : A → Action B)
      → Adds P m
      → ((a : A) → Adds P (f a))
      → Adds P (m >>= f)
  >>=-Adds m f am af = record {
    added = λ h. elim (Outcome-cases (m h).0) [
      | inr (e, q) ↦ let (cs, same, all) = am.added h in (cs, ground arith, all)
      | inl (a, q) ↦
          let (cs, same, all) = am.added h in
          let (ds, same', all') = (af a).added (m h).1 in
          let assoc = append_assoc ds cs h in (ds ++ cs, ground arith, All-append P ds cs all' all)
    ];
  }

  pub pure-Adds : {A : Type 0} (a : A) → Adds P (pure a)
  pure-Adds a = record { added = λ h. ([], refl, tt) }

  pub throw-Adds : {A : Type 0} (e : Exception) → Adds P (throw {A = A} e)
  throw-Adds e = record { added = λ h. ([], refl, tt) }

  -- An outcome that is there already.
  pub outcome-Adds : {A : Type 0} (o : Outcome A) → Adds P (λ h. (o, h))
  outcome-Adds o = record { added = λ h. ([], refl, tt) }

  pub throw_if-Adds : (b : Bool) (e : Exception) → Adds P (throw_if b e)
  throw_if-Adds true e = record { added = λ h. ([], refl, tt) }
  throw_if-Adds false e = record { added = λ h. ([], refl, tt) }

  -- An action that ends otherwise and makes the same calls.
  pub same_calls-Adds :
      {A B : Type 0} (m : Action A) (m' : Action B)
      → ((h : History) → (m' h).1 ≡ (m h).1)
      → Adds P m
      → Adds P m'
  same_calls-Adds m m' same am = record {
    added = λ h. let (cs, eq, all) = am.added h in let q = same h in (cs, ground arith, all);
  }

  pub rethrow_as-Adds :
      {A : Type 0} (e : Exception) (m : Action A) → Adds P m → Adds P (rethrow_as e m)
  rethrow_as-Adds e m am =
      same_calls-Adds m (rethrow_as e m)
        (λ h. elim (Outcome-cases (m h).0) [
          | inl (b, q) ↦ ground arith
          | inr (x, q) ↦ ground arith
        ])
        am

pub ruleset adding =
    (>>=-Adds, perform-Adds, pure-Adds, throw-Adds, outcome-Adds, throw_if-Adds, rethrow_as-Adds)
