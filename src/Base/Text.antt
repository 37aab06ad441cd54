-- ===== src/Base/Text.antt =====
-- Strings that the program looks into, as lists of UTF-16 code units. Identifiers and names that
-- it only compares or passes on are native strings.
use mathlib.Core.Path.{◌≡◌, refl}
use native.Mathlib.Omega.{arith}
use mathlib.Core.Bool.{Bool, true, false, ◌&&◌, ◌||◌}
use Prim.Native.Nat.{ℕ}
use Prim.Native.Char.{code}
use Prim.Native.String.{String}
use mathlib.Core.List.{List, [], ◌∷◌, reverse}
use orchestronic_be.Base.Tests.{◌==◌, if◌then◌else◌, leb}

abbrev pub Text : Type 0
Text = List ℕ

-- The code units of a literal; all literals of the program are ASCII.
abbrev pub codes : String → Text
codes String.[] = []
codes (String.◌∷◌ c s) = code c ∷ codes s

-- `===` on two texts.
abbrev pub text_eq : Text → Text → Bool
text_eq [] [] = true
text_eq (a ∷ s) (b ∷ t) = a == b && text_eq s t
text_eq _ _ = false

pub text_eq_refl : (s : Text) → text_eq s s ≡ true
text_eq_refl [] = refl
text_eq_refl (c ∷ s) = ground (arith, text_eq_refl s)

pub text_eq-true : (s t : Text) → text_eq s t ≡ true → s ≡ t
text_eq-true [] [] e = refl
text_eq-true [] (b ∷ t) e = absurd (ground arith)
text_eq-true (a ∷ s) [] e = absurd (ground arith)
text_eq-true (a ∷ s) (b ∷ t) e = ground (arith, text_eq-true s t)

onto_head : ℕ → List Text → List Text
onto_head x [] = (x ∷ []) ∷ []
onto_head x (s ∷ ss) = (x ∷ s) ∷ ss

-- `s.split(c)` for a separator of one character.
unfoldable pub split : ℕ → Text → List Text
unfolding onto_head
split c [] = [] ∷ []
split c (x ∷ s) = let rest = split c s in if x == c then [] ∷ rest else onto_head x rest

-- White space and line terminators, which `trim` and `parseInt` skip.
abbrev pub is_space : ℕ → Bool
is_space c =
    (leb 9 c && leb c 13)
    || c == 32
    || c == 160
    || c == 5760
    || (leb 8192 c && leb c 8202)
    || c == 8232
    || c == 8233
    || c == 8239
    || c == 8287
    || c == 12288
    || c == 65279

unfoldable pub trim_start : Text → Text
trim_start [] = []
trim_start (c ∷ s) = let rest = trim_start s in if is_space c then rest else c ∷ s

-- `s.trim()`
unfoldable pub trim : Text → Text
unfolding trim_start
trim s = reverse (trim_start (reverse (trim_start s)))

-- `s.replace(/['"]/g, '')`
unfoldable pub remove_quotes : Text → Text
remove_quotes [] = []
remove_quotes (c ∷ s) = let rest = remove_quotes s in if c == 39 || c == 34 then rest else c ∷ rest
