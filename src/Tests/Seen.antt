-- ===== src/Tests/Seen.antt =====
-- The repositories of Alice.
use mathlib.Core.Path.{subst}
use mathlib.Core.List.{Memᴰ}
use orchestronic_be.Base.{String, List, [], ◌∷◌, All, ◌≡◌, refl}
use orchestronic_be.Schema.{Role, RepositoryRow}
use orchestronic_be.Effects.Monad.{returned, thrown, Exception}
use orchestronic_be.Repositories.{SeenOutside, find_repositories}
use orchestronic_be.Repositories.Seen.{HonoursIn}
use orchestronic_be.Tests.World.{db, shop, caller}

-- Only the first id has a row.
abbrev first_row : List String → List RepositoryRow
first_row [] = []
first_row (id ∷ ids) = record shop { id = id } ∷ []

abbrev seen : SeenOutside
seen = record {
  db = db;
  repositories_in = λ ids h. returned (first_row ids);
  resources_owned = λ owner h. returned [];
  users_all = λ h. returned [];
  create_repository = λ d h. returned shop;
  price = λ size region h. thrown (Exception.client_error "offline");
}

first_row-Memᴰ : (ids : List String) → All (λ r. Memᴰ r.id ids) (first_row ids)
first_row-Memᴰ [] = tt
first_row-Memᴰ (id ∷ ids) = (Memᴰ.head refl, tt)

seen-HonoursIn : HonoursIn seen
seen-HonoursIn = record {
  listed = λ ids h rs e.
      let same : first_row ids ≡ rs = cc in
      subst (λ x. All (λ r. Memᴰ r.id ids) x) same (first_row-Memᴰ ids);
}

listed : (find_repositories seen (caller Role.developer) []).0 ≡ returned (shop ∷ [])
unfolding find_repositories
listed = refl
