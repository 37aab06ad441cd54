-- ===== src/Repositories/Seen.antt =====
-- Which repositories a user sees.
use mathlib.Core.List.{Memᴰ}
use orchestronic_be.Base.{String, List, All, map, ◌≡◌, arith, inl, inr, false, none, ◌∷◌, some}
use orchestronic_be.Schema.{RequestRow, RepositoryRow}
use orchestronic_be.Effects.Data.{RequestWhere}
use orchestronic_be.Effects.Calls.{Call, Query, History}
use orchestronic_be.Effects.Monad.{returned, Outcome-cases}
use orchestronic_be.Request.Dto.{BackendJwtPayload}
use orchestronic_be.Request.Query.{is_staff, owner_filter}
use orchestronic_be.Request.Query.Visibility.{HonoursWhere, own_filter}
use orchestronic_be.Repositories.{SeenOutside, find_repositories}

-- Prisma's documented meaning of `in`: a row that is returned has one of the ids that are asked for.
pub record HonoursIn (out : SeenOutside) : Type 0 where
  pub listed :
      (ids : List String) (h : History) (rs : List RepositoryRow)
      → out.repositories_in ids h ≡ returned rs
      → All (λ r. Memᴰ r.id ids) rs

abbrev pub repository_id : RequestRow → String
repository_id r = r.repository.id

module _ (out : SeenOutside) (honest : HonoursWhere out.db) (listing : HonoursIn out)
    (user : BackendJwtPayload) (own : String) (named : user.id ≡ some own)
    (other : is_staff user.role ≡ false) where
  -- A user that is neither Admin nor IT and whose token has an id is given only repositories of requests that it owns.
  pub find_repositories-own :
      (h : History) (rs : List RepositoryRow)
      → (find_repositories out user h).0 ≡ returned rs
      → (requests : List RequestRow) × All (λ q. q.owner_id ≡ own) requests
        × All (λ r. Memᴰ r.id (map repository_id requests)) rs
  unfolding find_repositories
  find_repositories-own h rs e =
      let w : RequestWhere = record { status = none; owner_id = owner_filter user } in
      elim (Outcome-cases (out.db.request_many w h)) [
        | inr (x, q) ↦ absurd (ground arith)
        | inl (requests, q) ↦
            let owned =
              rw (own_filter out.db honest user own named other) at (honest.many w h requests q) in
            (
              requests,
              owned,
              listing.listed (map repository_id requests) (Call.read (Query.request_many w) ∷ h) rs
                  (ground arith),
            )
      ]
