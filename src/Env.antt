-- ===== src/Env.antt =====
-- How the program reads environment variables and headers: the helpers at the start of
-- `configureApp` in src/main.ts, which src/auth/auth.controller.ts repeats.
use orchestronic_be.Base.{
  ℕ, Option, none, some, List, [], ◌∷◌, ◌++◌, ◌≡◌, refl, arith, Bool, true, false, ◌&&◌, ◌||◌, ◌==◌,
  leb, ◌+◌, if◌then◌else◌, Bool-cases, inl, inr, map,
}
use orchestronic_be.Base.Text.{Text, text_eq, text_eq-true, text_eq_refl, trim, split}
use mathlib.Core.List.{reverse}

-- The characters ' and ".
abbrev is_quote : ℕ → Bool
is_quote c = c == 39 || c == 34

unfoldable pub drop_quote : Text → Text
drop_quote [] = []
drop_quote (c ∷ s) = if is_quote c then s else c ∷ s

-- `replace(/^['"]|['"]$/g, '')` after `trim()`
unfoldable pub normalize_env_value : Text → Text
unfolding drop_quote
normalize_env_value value = reverse (drop_quote (reverse (drop_quote (trim value))))

unfoldable drop_slashes : Text → Text
drop_slashes [] = []
drop_slashes (c ∷ s) = let rest = drop_slashes s in if c == b'/' then rest else c ∷ s

-- `replace(/\/+$/, '')`
unfoldable pub trim_slashes : Text → Text
unfolding drop_slashes
trim_slashes s = reverse (drop_slashes (reverse s))

unfoldable pub normalize_origin : Text → Text
normalize_origin value = trim_slashes (normalize_env_value value)

-- A text counts as false exactly when it is empty; so does an absent one.
abbrev pub is_set : Text → Bool
is_set [] = false
is_set (c ∷ s) = true

abbrev pub text_or_empty : Option Text → Text
text_or_empty none = []
text_or_empty (some s) = s

-- `(process.env.X || '').split(',').map(normalizeOrigin)`, before the empty ones are dropped
unfoldable pub origins_of : Option Text → List Text
origins_of value = map normalize_origin (split b',' (text_or_empty value))

-- The capital letters of ASCII in lower case.
abbrev pub lower : ℕ → ℕ
lower c = if leb b'A' c && leb c b'Z' then c + 32 else c

abbrev pub to_lower_ascii : Text → Text
to_lower_ascii [] = []
to_lower_ascii (c ∷ s) = lower c ∷ to_lower_ascii s

-- The rest of a text after a prefix.
unfoldable pub strip : Text → Text → Option Text
strip [] s = some s
strip (c ∷ p) [] = none
strip (c ∷ p) (x ∷ s) = let rest = strip p s in if x == c then rest else none

pub strip-++ : (p s t : Text) → strip p s ≡ some t → s ≡ p ++ t
unfolding strip
strip-++ [] s t e = ground arith
strip-++ (c ∷ p) [] t e = absurd (ground arith)
strip-++ (c ∷ p) (x ∷ s) t e = elim (Bool-cases (x == c)) [
  | inl q ↦ ground (arith, strip-++ p s t)
  | inr q ↦ absurd (ground arith)
]

-- `s.endsWith(suffix)`
unfoldable pub ends_with : Text → Text → Bool
ends_with suffix [] = text_eq [] suffix
ends_with suffix (c ∷ s) = let rest = ends_with suffix s in text_eq (c ∷ s) suffix || rest

pub ends_with-++ : (suffix s : Text) → ends_with suffix s ≡ true → (t : Text) × (s ≡ t ++ suffix)
unfolding ends_with
ends_with-++ suffix [] e = ([], text_eq-true [] suffix e)
ends_with-++ suffix (c ∷ s) e = elim (Bool-cases (text_eq (c ∷ s) suffix)) [
  | inl q ↦ ([], text_eq-true (c ∷ s) suffix q)
  | inr q ↦ let (t, same) = ends_with-++ suffix s (ground arith) in (c ∷ t, rw same refl)
]

pub ++-ends_with : (suffix t : Text) → ends_with suffix (t ++ suffix) ≡ true
unfolding ends_with
++-ends_with [] [] = refl
++-ends_with (c ∷ s) [] = ground (arith, text_eq_refl (c ∷ s))
++-ends_with suffix (c ∷ t) = ground (arith, ++-ends_with suffix t)

-- `texts.has(s)`
unfoldable pub has : List Text → Text → Bool
has [] s = false
has (t ∷ ts) s = let rest = has ts s in text_eq t s || rest
