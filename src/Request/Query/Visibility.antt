-- ===== src/Request/Query/Visibility.antt =====
-- Who sees which requests.
use orchestronic_be.Base.{String, Option, none, some, List, All, ◌≡◌, arith, inl, inr, false}
use orchestronic_be.Base.Text.{Text}
use orchestronic_be.Schema.{RequestRow}
use orchestronic_be.Effects.Data.{RequestWhere, RequestKey}
use orchestronic_be.Effects.Calls.{History}
use orchestronic_be.Effects.Monad.{returned, Outcome-cases}
use orchestronic_be.Effects.Prisma.{Prisma}
use orchestronic_be.Request.Dto.{BackendJwtPayload}
use orchestronic_be.Request.Query.{is_staff, owner_filter, find_all, find_with_request_display_code}

-- A condition that is absent holds of every value.
abbrev pub Asks : {A : Type 0} → Option A → A → Type 0
Asks none a = Unit
Asks (some b) a = a ≡ b

-- Prisma's documented meaning of `where`: a row that is returned has the values that are asked for.
pub record HonoursWhere (db : Prisma) : Type 0 where
  pub many :
      (w : RequestWhere) (h : History) (rs : List RequestRow)
      → db.request_many w h ≡ returned rs
      → All (λ r. Asks w.owner_id r.owner_id) rs
  pub unique :
      (code : Text) (owner : Option String) (h : History) (r : RequestRow)
      → db.request_unique (RequestKey.by_code code owner) h ≡ returned (some r)
      → (r.display_code ≡ code) × Asks owner r.owner_id

module _ (db : Prisma) (honest : HonoursWhere db) (user : BackendJwtPayload) (own : String)
    (named : user.id ≡ some own) (other : is_staff user.role ≡ false) where
  pub own_filter : owner_filter user ≡ some own
  own_filter = ground arith

  -- A user that is neither Admin nor IT and whose token has an id is given only requests of that
  -- owner.
  pub find_all-own :
      (h : History) (rs : List RequestRow)
      → (find_all db user h).0 ≡ returned rs
      → All (λ r. r.owner_id ≡ own) rs
  unfolding find_all
  find_all-own h rs e =
      rw own_filter at (honest.many (record { status = none; owner_id = owner_filter user }) h rs e)

  -- A user that is neither Admin nor IT and whose token has an id is given by a display code only a
  -- request of the owner with that id, and one with that code.
  pub find_with_request_display_code-own :
      (code : Text) (h : History) (r : RequestRow)
      → (find_with_request_display_code db code user h).0 ≡ returned r
      → (r.display_code ≡ code) × (r.owner_id ≡ own)
  unfolding find_with_request_display_code
  find_with_request_display_code-own code h r e =
      elim (Outcome-cases (db.request_unique (RequestKey.by_code code (owner_filter user)) h)) [
        | inr (x, q) ↦ absurd (ground arith)
        | inl (none, q) ↦ absurd (ground arith)
        | inl (some r', q) ↦
            let found = rw own_filter at (honest.unique code (owner_filter user) h r' q) in
            let same : r' ≡ r = ground arith in rw same at found
      ]
