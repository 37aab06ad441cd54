-- ===== src/Gitlab/Search.antt =====
-- Which users of GitLab the search gives.
use mathlib.Core.Path.{subst}
use orchestronic_be.Base.{
  Option, none, some, List, [], ◌∷◌, ◌++◌, ◌≡◌, ◌⊎◌, inl, inr, refl, sym, ap, arith, Bool, true,
  false, not, ◌&&◌, ◌||◌, Bool-cases, Option-cases, if◌then◌else◌, ◌∙◌,
}
use orchestronic_be.Base.Text.{Text, trim, text_eq-true}
use orchestronic_be.Env.{text_or_empty, strip, strip-++}
use orchestronic_be.Patterns.{contains}
use orchestronic_be.Effects.Calls.{History}
use orchestronic_be.Effects.Monad.{Response, returned, Outcome-cases}
use orchestronic_be.Gitlab.{GitlabApi, GitlabUser, human_users, list_users}
use orchestronic_be.Gitlab.Controller.{
  is_blank, field_includes, user_includes, users_with, searched, get_users_route,
}

-- The items of a list that have a property, all of them, in order.
pub data Selects {A : Type 0} (P : A → Type 0) : List A → List A → Type 0 where
  nil : Selects P [] []
  keep : {x : A} {xs ys : List A} → P x → Selects P xs ys → Selects P (x ∷ xs) (x ∷ ys)
  leave : {x : A} {xs ys : List A} → ¬ P x → Selects P xs ys → Selects P (x ∷ xs) ys

module _ {A : Type 0} where
  unfoldable kept : (A → Bool) → List A → List A
  kept test [] = []
  kept test (x ∷ xs) = let rest = kept test xs in if test x then x ∷ rest else rest

  kept-Selects :
      (P : A → Type 0) (test : A → Bool)
      → ((x : A) → test x ≡ true → P x)
      → ((x : A) → P x → test x ≡ true)
      → (xs : List A) → Selects P xs (kept test xs)
  unfolding kept
  kept-Selects P test sound complete [] = nil
  kept-Selects P test sound complete (x ∷ xs) = elim (Bool-cases (test x)) [
    | inl e ↦ rw e (keep (sound x e) (kept-Selects P test sound complete xs))
    | inr e ↦
        rw e
          (leave (λ p. let q = complete x p in absurd (cc)) (kept-Selects P test sound complete xs))
  ]

-- The part stands somewhere in the text.
abbrev pub FoundIn : Text → Text → Type 0
FoundIn part s = (before after : Text) × (s ≡ before ++ (part ++ after))

strip-append : (p s : Text) → strip p (p ++ s) ≡ some s
unfolding strip
strip-append [] s = refl
strip-append (c ∷ p) s = ground (arith, strip-append p s)

contains-FoundIn : (part s : Text) → contains part s ≡ true → FoundIn part s
unfolding contains
contains-FoundIn [] [] e = ([], [], refl)
contains-FoundIn (c ∷ part) [] e = absurd (cc)
contains-FoundIn part (c ∷ s) e = elim (Option-cases (strip part (c ∷ s))) [
  | inr (t, q) ↦ ([], t, strip-++ part (c ∷ s) t q)
  | inl q ↦
      let (before, after, same) = contains-FoundIn part s (ground arith) in
      (c ∷ before, after, ap (λ x. c ∷ x) same)
]

contains-middle : (before part after : Text) → contains part (before ++ (part ++ after)) ≡ true
unfolding contains strip
contains-middle [] [] [] = refl
contains-middle [] [] (c ∷ after) = refl
contains-middle [] (c ∷ part) after = ground (arith, strip-append (c ∷ part) after)
contains-middle (c ∷ before) part after =
    elim (Option-cases (strip part (c ∷ (before ++ (part ++ after))))) [
      | inl q ↦ ground (arith, contains-middle before part after)
      | inr (t, q) ↦ ground arith
    ]

module _ (to_lower_case : Text → Text) where
  -- The text of a field in small letters has the part; an absent field counts as empty.
  abbrev pub FieldHas : Text → Option Text → Type 0
  FieldHas lower none = FoundIn lower []
  FieldHas lower (some s) = FoundIn lower (to_lower_case s)

  abbrev pub UserHas : Text → GitlabUser → Type 0
  UserHas lower u = FieldHas lower u.username ⊎ (FieldHas lower u.email ⊎ FieldHas lower u.name)

  -- A human user, one of whose three fields has the search term, if there is one.
  abbrev pub IsShown : Option Text → GitlabUser → Type 0
  IsShown search u =
      (u.bot ≡ false)
      × (u.is_admin ≡ false)
      × ((trim (text_or_empty search) ≡ []) ⊎ UserHas (to_lower_case (text_or_empty search)) u)

  field-FieldHas :
      (lower : Text) (o : Option Text)
      → field_includes to_lower_case lower o ≡ true
      → FieldHas lower o
  field-FieldHas lower none e = contains-FoundIn lower [] e
  field-FieldHas lower (some s) e = contains-FoundIn lower (to_lower_case s) e

  found-contains : (lower s : Text) → FoundIn lower s → contains lower s ≡ true
  found-contains lower s (before, after, e) = rw e (contains-middle before lower after)

  FieldHas-field :
      (lower : Text) (o : Option Text)
      → FieldHas lower o
      → field_includes to_lower_case lower o ≡ true
  FieldHas-field lower none e = found-contains lower [] e
  FieldHas-field lower (some s) e = found-contains lower (to_lower_case s) e

  includes-UserHas :
      (lower : Text) (u : GitlabUser) → user_includes to_lower_case lower u ≡ true → UserHas lower u
  unfolding user_includes
  includes-UserHas lower u e = elim (Bool-cases (field_includes to_lower_case lower u.username)) [
    | inl a ↦ inl (field-FieldHas lower u.username a)
    | inr a ↦ elim (Bool-cases (field_includes to_lower_case lower u.email)) [
      | inl b ↦ inr (inl (field-FieldHas lower u.email b))
      | inr b ↦ inr (inr (field-FieldHas lower u.name (ground arith)))
    ]
  ]

  UserHas-includes :
      (lower : Text) (u : GitlabUser) → UserHas lower u → user_includes to_lower_case lower u ≡ true
  unfolding user_includes
  UserHas-includes lower u (inl p) = let q = FieldHas-field lower u.username p in ground arith
  UserHas-includes lower u (inr (inl p)) = let q = FieldHas-field lower u.email p in ground arith
  UserHas-includes lower u (inr (inr p)) = let q = FieldHas-field lower u.name p in ground arith

  -- The two tests on a user, as one.
  shown_test : Option Text → GitlabUser → Bool
  shown_test search u =
      not (u.bot || u.is_admin)
      && (is_blank search || user_includes to_lower_case (to_lower_case (text_or_empty search)) u)

  shown_test-IsShown :
      (search : Option Text) (u : GitlabUser) → shown_test search u ≡ true → IsShown search u
  unfolding shown_test
  shown_test-IsShown search u e = elim (Bool-cases (is_blank search)) [
    | inl b ↦ (ground arith, ground arith, inl (text_eq-true (trim (text_or_empty search)) [] b))
    | inr b ↦ (
      ground arith,
      ground arith,
      inr (includes-UserHas (to_lower_case (text_or_empty search)) u (ground arith)),
    )
  ]

  IsShown-shown_test :
      (search : Option Text) (u : GitlabUser) → IsShown search u → shown_test search u ≡ true
  unfolding shown_test
  IsShown-shown_test search u (b, a, inl blank) =
      let e : is_blank search ≡ true = rw blank refl in ground arith
  IsShown-shown_test search u (b, a, inr has) =
      let e = UserHas-includes (to_lower_case (text_or_empty search)) u has in
      elim (Bool-cases (is_blank search)) [ inl k ↦ ground arith | inr k ↦ ground arith ]

  searched-kept :
      (search : Option Text) (users : List GitlabUser)
      → searched to_lower_case search (human_users users) ≡ kept (shown_test search) users
  unfolding human_users users_with kept shown_test
  searched-kept search [] = ground arith
  searched-kept search (u ∷ users) = elim (Bool-cases (is_blank search)) [
    | inl k ↦ ground (arith, searched-kept search users)
    | inr k ↦ ground (arith, searched-kept search users)
  ]

  -- When the search for users returns, GitLab gave a list of users, and the answer has, in their
  -- order, exactly those that are no bots and no administrators and, unless the search term is
  -- absent or blank, have the term in small letters somewhere in their user name, address or name
  -- in small letters.
  pub get_users_route-Selects :
      (api : GitlabApi) (search : Option Text) (h : History) (us : List GitlabUser)
      → (get_users_route to_lower_case api search h).0 ≡ returned us
      → (r : Response (List GitlabUser)) × (users : List GitlabUser) × (api.get_users h
          ≡ returned r)
        × (r.ok ≡ true)
        × (r.json ≡ returned users)
        × Selects (IsShown search) users us
  unfolding get_users_route list_users
  get_users_route-Selects api search h us e = elim (Outcome-cases (api.get_users h)) [
    | inr (x, q) ↦ absurd (ground arith)
    | inl (r, q) ↦ elim (Bool-cases r.ok) [
      | inr bad ↦ absurd (ground arith)
      | inl ok ↦ elim (Outcome-cases r.json) [
        | inr (x, q') ↦ absurd (ground arith)
        | inl (users, q') ↦
            let all =
              kept-Selects (IsShown search) (shown_test search) (shown_test-IsShown search)
                (IsShown-shown_test search) users in
            let same : searched to_lower_case search (human_users users) ≡ us = ground arith in
            (
              r,
              users,
              q,
              ok,
              q',
              subst (Selects (IsShown search) users) (sym (searched-kept search users) ∙ same) all,
            )
      ]
    ]
  ]
