-- ===== src/Request/DisplayCode.antt =====
-- The display codes R-1, R-2, … of requests: how the services compute the next one
-- (src/request/request.service.ts), and what the controller accepts
-- (src/request/request.controller.ts).
use orchestronic_be.Base.{
  ℕ, ◌+◌, ◌≡◌, refl, Bool, true, false, ◌&&◌, Option, none, some, List, [], ◌∷◌, ◌++◌, arith, ◌==◌,
  All,
}
use orchestronic_be.Base.Text.{Text, codes, split}
use orchestronic_be.Base.Decimal.{
  print, parse_int, is_digit, IsDigit, all_digits, IsDigit-all_digits, print-IsDigit,
  print-IsNonempty, IsNonempty, parse_int-print,
}
use orchestronic_be.Schema.{RequestRow}

-- `parts[1]`
abbrev second : List Text → Option Text
second [] = none
second (_ ∷ []) = none
second (_ ∷ t ∷ _) = some t

abbrev bind_option : {A B : Type 0} → Option A → (A → Option B) → Option B
bind_option none f = none
bind_option (some a) f = f a

-- `parseInt(code.split('-')[1])`, where `parseInt(undefined)` is NaN
unfoldable pub code_number : Text → Option ℕ
code_number code = bind_option (second (split b'-' code)) parse_int

-- `lastRequest ? parseInt(lastRequest.displayCode.split('-')[1]) : 0`
abbrev pub last_number : Option RequestRow → Option ℕ
last_number none = some 0
last_number (some r) = code_number r.display_code

-- `R-${lastNumber + 1}`, where NaN + 1 is NaN
unfoldable pub code_after : Option ℕ → Text
code_after none = codes "R-NaN"
code_after (some n) = codes "R-" ++ print (n + 1)

-- /^R-\d+$/
unfoldable pub is_display_code : Text → Bool
is_display_code (r ∷ dash ∷ c ∷ s) = r == b'R' && dash == b'-' && is_digit c && all_digits s
is_display_code s = false

split-digits : (s : Text) → All IsDigit s → split b'-' s ≡ s ∷ []
unfolding split
split-digits [] h = refl
split-digits (c ∷ s) h = rw (split-digits s h.1) (ground arith)

-- The number of the code that carries `n + 1` is `n + 1`: a code that the services wrote is read
-- back without loss.
pub code_number-code_after : (n : ℕ) → code_number (code_after (some n)) ≡ some (n + 1)
unfolding code_number code_after split
code_number-code_after n =
    rw (split-digits (print (n + 1)) (print-IsDigit (n + 1))) (parse_int-print (n + 1))

is_display_code-digits :
    (s : Text) → IsNonempty s → All IsDigit s → is_display_code (codes "R-" ++ s) ≡ true
unfolding is_display_code
is_display_code-digits [] e h = elim e [ ]
is_display_code-digits (c ∷ s) e h = ground (arith, IsDigit-all_digits s h.1)

-- The code after any number is one that the controller's regular expression accepts.
pub is_display_code-code_after : (n : ℕ) → is_display_code (code_after (some n)) ≡ true
unfolding code_after
is_display_code-code_after n =
    is_display_code-digits (print (n + 1)) (print-IsNonempty (n + 1)) (print-IsDigit (n + 1))
