-- ===== src/Origins/Allowed.antt =====
-- Which origins are allowed.
use mathlib.Core.List.{Memᴰ}
use orchestronic_be.Base.{
  some, List, [], ◌∷◌, ◌++◌, ◌≡◌, ◌≢◌, ◌↔◌, ◌⊎◌, inl, inr, refl, arith, true, Bool-cases, map, ◌||◌,
}
use orchestronic_be.Base.Text.{Text, codes, split, text_eq, text_eq-true, text_eq_refl}
use orchestronic_be.Env.{
  normalize_origin, origins_of, has, is_set, ends_with, ends_with-++, ++-ends_with, text_or_empty,
}
use orchestronic_be.Origins.Localhost.{
  LocalhostOrigin, is_localhost_origin-LocalhostOrigin, LocalhostOrigin-is_localhost_origin,
}
use orchestronic_be.Origins.{OriginEnv, nonempty, allowed_origins, is_localhost_origin, allows}

-- The origin is written, between commas, in one of the two variables.
pub record ListedOrigin (env : OriginEnv) (origin : Text) : Type 0 where
  pub url : Text
  pub written :
      Memᴰ url (split b',' (text_or_empty env.frontend_url))
      ⊎ Memᴰ url (split b',' (text_or_empty env.backend_url))
  pub same : normalize_origin url ≡ normalize_origin origin
  pub not_empty : normalize_origin origin ≢ []

-- The rest of the list: what is left is what was written and is not empty.
nonempty-cases :
    (ts : List Text) (s : Text)
    → has (nonempty (map normalize_origin ts)) s ≡ true
    → (url : Text) × Memᴰ url ts × (normalize_origin url ≡ s) × (s ≢ [])
unfolding has nonempty
nonempty-cases [] s e = absurd (ground arith)
nonempty-cases (t ∷ ts) s e = elim (Bool-cases (is_set (normalize_origin t))) [
  | inr empty ↦
      let (url, m, same, set) = nonempty-cases ts s (ground arith) in (url, Memᴰ.tail m, same, set)
  | inl set ↦ elim (Bool-cases (text_eq (normalize_origin t) s)) [
    | inl eq ↦
        let same = text_eq-true (normalize_origin t) s eq in
        (t, Memᴰ.head refl, same, λ e'. ground arith)
    | inr other ↦
        let (url, m, same, set') = nonempty-cases ts s (ground arith) in
        (url, Memᴰ.tail m, same, set')
  ]
]

is_set-true : (s : Text) → s ≢ [] → is_set s ≡ true
is_set-true [] n = absurd (n refl)
is_set-true (c ∷ s) n = refl

Memᴰ-nonempty :
    (ts : List Text) (url s : Text)
    → Memᴰ url ts
    → normalize_origin url ≡ s
    → s ≢ []
    → has (nonempty (map normalize_origin ts)) s ≡ true
unfolding has nonempty
Memᴰ-nonempty [] url s m same n = elim m [ ]
Memᴰ-nonempty (t ∷ ts) url s (Memᴰ.head q) same n =
    let set = is_set-true s n in let eq = text_eq_refl s in ground arith
Memᴰ-nonempty (t ∷ ts) url s (Memᴰ.tail m) same n =
    let rest = Memᴰ-nonempty ts url s m same n in ground arith

has-append : (xs ys : List Text) (s : Text) → has (xs ++ ys) s ≡ has xs s || has ys s
unfolding has
has-append [] ys s = refl
has-append (x ∷ xs) ys s = let rest = has-append xs ys s in ground arith

module _ (env : OriginEnv) (o : Text) where
  abbrev frontend_part : List Text
  frontend_part = split b',' (text_or_empty env.frontend_url)

  abbrev backend_part : List Text
  backend_part = split b',' (text_or_empty env.backend_url)

  listed-ListedOrigin : has (allowed_origins env) (normalize_origin o) ≡ true → ListedOrigin env o
  unfolding allowed_origins origins_of
  listed-ListedOrigin e =
      let parts =
        has-append (nonempty (map normalize_origin frontend_part))
          (nonempty (map normalize_origin backend_part)) (normalize_origin o) in
      elim (Bool-cases (has (nonempty (map normalize_origin frontend_part)) (normalize_origin o))) [
        | inl front ↦
            let (url, m, same, set) = nonempty-cases frontend_part (normalize_origin o) front in
            record { url = url; written = inl m; same = same; not_empty = set }
        | inr back ↦
            let (url, m, same, set) =
              nonempty-cases backend_part (normalize_origin o) (ground arith) in
            record { url = url; written = inr m; same = same; not_empty = set }
      ]

  ListedOrigin-listed : ListedOrigin env o → has (allowed_origins env) (normalize_origin o) ≡ true
  unfolding allowed_origins origins_of
  ListedOrigin-listed l =
      let parts =
        has-append (nonempty (map normalize_origin frontend_part))
          (nonempty (map normalize_origin backend_part)) (normalize_origin o) in
      elim l.written [
        | inl m ↦
            let front =
              Memᴰ-nonempty frontend_part l.url (normalize_origin o) m l.same l.not_empty in
            ground arith
        | inr m ↦
            let back = Memᴰ-nonempty backend_part l.url (normalize_origin o) m l.same l.not_empty in
            ground arith
      ]

  -- The four reasons for which an origin is allowed.
  abbrev pub Welcome : Type 0
  Welcome =
      (o ≡ [])
      ⊎ (ListedOrigin env o
          ⊎ (((t : Text) × (normalize_origin o ≡ t ++ codes ".vercel.app"))
              ⊎ LocalhostOrigin (normalize_origin o)))

  -- The header Origin with this text is allowed exactly when it is empty, or is equal, up to outer
  -- spaces, quotes and slashes at the end, to one that is written in one of the two variables, or
  -- ends in .vercel.app, or is this machine with http or https, in any letter case, and perhaps a
  -- port in digits.
  pub allows_iff : (allows env (some o) ≡ true) ↔ Welcome
  unfolding allows
  allows_iff = (to, from)
    where
      to : allows env (some o) ≡ true → Welcome
      to e = elim (Bool-cases (has (allowed_origins env) (normalize_origin o))) [
        | inl listed ↦ inr (inl (listed-ListedOrigin listed))
        | inr unlisted ↦ elim (Bool-cases (ends_with (codes ".vercel.app") (normalize_origin o))) [
          | inl hosted ↦
              inr (inr (inl (ends_with-++ (codes ".vercel.app") (normalize_origin o) hosted)))
          | inr other ↦ elim (Bool-cases (is_localhost_origin (normalize_origin o))) [
            | inl local ↦
                inr (inr (inr (is_localhost_origin-LocalhostOrigin (normalize_origin o) local)))
            | inr foreign ↦ inl (ground arith)
          ]
        ]
      ]

      from : Welcome → allows env (some o) ≡ true
      from (inl e) = ground arith
      from (inr (inl l)) = let listed = ListedOrigin-listed l in ground arith
      from (inr (inr (inl (t, same)))) =
          let hosted : ends_with (codes ".vercel.app") (normalize_origin o) ≡ true =
            rw same (++-ends_with (codes ".vercel.app") t) in
          ground arith
      from (inr (inr (inr l))) =
          let local = LocalhostOrigin-is_localhost_origin (normalize_origin o) l in ground arith
