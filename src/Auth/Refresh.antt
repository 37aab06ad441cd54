-- ===== src/Auth/Refresh.antt =====
-- What a refreshed access token says.
use orchestronic_be.Base.{ℕ, String, some, ◌≡◌, false, ◌===◌, inl, inr, arith, Option-cases}
use orchestronic_be.Effects.Calls.{History}
use orchestronic_be.Effects.Monad.{returned, Outcome-cases}
use orchestronic_be.Session.{nonempty_text}
use orchestronic_be.Auth.{
  AuthEnv, Incoming, Claims, Reply, no_claims, hour, set_cookie, renew, refresh, me,
}

-- The documented behaviour of `jsonwebtoken`, for one secret: a token that was signed is verified,
-- with the claims that it was signed with.
pub record SignsWith (env : AuthEnv) (secret : String) : Type 0 where
  pub verified :
      (c : Claims) (age : ℕ) (token : String)
      → env.sign c age ≡ returned token
      → env.verify token secret ≡ some c
  pub not_empty :
      (c : Claims) (age : ℕ) (token : String)
      → env.sign c age ≡ returned token
      → (token === "") ≡ false

module _ (env : AuthEnv) (secret : String) (configured : nonempty_text env.jwt_secret ≡ some secret)
    (signs : SignsWith env secret) (req : Incoming) (h : History) (token : String) where
  -- The refresh token of the request was verified, and with the new access token `me` answers with
  -- its id only.
  pub record Refreshed : Type 0 where
    pub payload : Claims
    pub sent : String
    pub received : nonempty_text req.refresh_token ≡ some sent
    pub accepted : env.verify sent secret ≡ some payload
    pub new_claims : env.verify token secret ≡ some (record no_claims { id = payload.id })
    pub only_id :
        me env (record req { access_token = some token })
        ≡ returned (record no_claims { id = payload.id })

  renew-Refreshed :
      (sent : String)
      → nonempty_text req.refresh_token ≡ some sent
      → (renew env req sent secret h).0 ≡ returned (Reply.access token)
      → Refreshed
  unfolding renew me
  renew-Refreshed sent received e = elim (Option-cases (env.verify sent secret)) [
    | inl bad ↦ absurd (ground arith)
    | inr (c, good) ↦ elim (Outcome-cases (env.sign (record no_claims { id = c.id }) hour)) [
      | inr (x, q) ↦ absurd (ground arith)
      | inl (t, q) ↦
          let law = signs.verified (record no_claims { id = c.id }) hour t q in
          let full = signs.not_empty (record no_claims { id = c.id }) hour t q in
          elim (Outcome-cases (set_cookie env req "access_token" t hour h).0) [
            | inr (x, w) ↦ absurd (ground arith)
            | inl (_, w) ↦ record {
              payload = c;
              sent = sent;
              received = received;
              accepted = good;
              new_claims = ground arith;
              only_id = ground arith;
            }
          ]
    ]
  ]

  -- A refresh that answers with an access token verified the refresh token of the request. The access
  -- token is verified with the id of the refresh token and no other claim, and with it `me` answers
  -- with that id and with nothing else: the email, the role and the name are absent.
  pub refresh-Refreshed : (refresh env req h).0 ≡ returned (Reply.access token) → Refreshed
  unfolding refresh
  refresh-Refreshed e = elim (Option-cases (nonempty_text req.refresh_token)) [
    | inl missing ↦ absurd (ground arith)
    | inr (sent, received) ↦ elim (Outcome-cases (renew env req sent secret h).0) [
      | inl (r, q) ↦ renew-Refreshed sent received (ground arith)
      | inr (x, q) ↦ absurd (ground arith)
    ]
  ]
