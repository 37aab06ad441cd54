-- ===== src/Patterns.antt =====
-- The patterns that src/azure-storage/azure-storage.service.ts looks for in the names of blobs and of
-- runs.
use orchestronic_be.Base.{
  Option, none, some, [], ◌∷◌, ◌++◌, Bool, true, false, ◌&&◌, ◌==◌, if◌then◌else◌,
}
use orchestronic_be.Base.Lists.{take}
use orchestronic_be.Base.Text.{Text, codes}
use orchestronic_be.Base.Decimal.{is_digit}
use orchestronic_be.Env.{strip}

-- The characters up to the first slash, and the rest from it.
unfoldable pub up_to_slash : Text → Text × Text
up_to_slash [] = ([], [])
up_to_slash (c ∷ s) =
    let rest = up_to_slash s in if c == b'/' then ([], c ∷ s) else (c ∷ rest.0, rest.1)

-- The digits before `.log` at the end.
unfoldable pub log_number : Text → Option Text
log_number [] = none
log_number (c ∷ s) =
    let rest = log_number s in
    if is_digit c
    then elim (strip (codes ".log") s) [
      | some [] ↦ some (c ∷ [])
      | _ ↦ elim rest [ some ds ↦ some (c ∷ ds) | none ↦ none ]
    ]
    else none

abbrev attempt_of : Text → Option Text → Option (Text × Text)
attempt_of [] _ = none
attempt_of (t ∷ ts) none = none
attempt_of (t ∷ ts) (some number) = some (t ∷ ts, number)

abbrev after_task : Text × Text → Option (Text × Text)
after_task (task, rest) = elim (strip (codes "/attempt=") rest) [
  | none ↦ none
  | some number ↦ attempt_of task (log_number number)
]

-- A match of `task_id=([^/]+)\/attempt=(\d+)\.log$` that begins here.
unfoldable pub match_here : Text → Option (Text × Text)
match_here s = elim (strip (codes "task_id=") s) [
  | none ↦ none
  | some rest ↦ after_task (up_to_slash rest)
]

-- `name.match(...)`: the first place where it matches.
unfoldable pub match_log : Text → Option (Text × Text)
match_log [] = none
match_log (c ∷ s) =
    let rest = match_log s in elim (match_here (c ∷ s)) [ some m ↦ some m | none ↦ rest ]

-- `text.includes(part)`
unfoldable pub contains : Text → Text → Bool
contains part [] = elim part [ [] ↦ true | _ ∷ _ ↦ false ]
contains part (c ∷ s) =
    let rest = contains part s in elim (strip part (c ∷ s)) [ some _ ↦ true | none ↦ rest ]

-- The shape of a time: 0 stands for a digit.
unfoldable pub has_shape : Text → Text → Bool
has_shape [] s = true
has_shape (p ∷ ps) [] = false
has_shape (p ∷ ps) (c ∷ s) =
    let rest = has_shape ps s in if p == b'0' then is_digit c && rest else c == p && rest

-- `parseRunIdToDate`, as the text that `new Date` is given
unfoldable pub parse_run_id_to_date : Text → Option Text
parse_run_id_to_date [] = none
parse_run_id_to_date (c ∷ s) =
    let rest = parse_run_id_to_date s in
    if has_shape (codes "0000-00-00T00:00:00") (c ∷ s)
    then some (take 19 (c ∷ s) ++ codes "Z")
    else rest
