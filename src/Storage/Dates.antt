-- ===== src/Storage/Dates.antt =====
-- `formatDate` of src/azure-storage/azure-storage.service.ts, on what the methods of a Date give in
-- the server's time zone.
use orchestronic_be.Base.{ℕ, zero, suc, Option, none, some, List, [], ◌∷◌, ◌++◌}
use orchestronic_be.Base.Text.{Text, codes}
use orchestronic_be.Base.Decimal.{print}

pub record LocalTime : Type 0 where
  -- from zero
  pub month : ℕ
  pub day : ℕ
  pub year : ℕ
  pub hours : ℕ
  pub minutes : ℕ

-- `s.padStart(2, '0')`
unfoldable pub pad_two : Text → Text
pad_two [] = b'0' ∷ b'0' ∷ []
pad_two (c ∷ []) = b'0' ∷ c ∷ []
pad_two (c ∷ d ∷ s) = c ∷ d ∷ s

abbrev months : List Text
months =
    codes "Jan"
    ∷ codes "Feb"
    ∷ codes "Mar"
    ∷ codes "Apr"
    ∷ codes "May"
    ∷ codes "Jun"
    ∷ codes "Jul"
    ∷ codes "Aug"
    ∷ codes "Sep"
    ∷ codes "Oct"
    ∷ codes "Nov"
    ∷ codes "Dec"
    ∷ []

-- `months[i]` in a template
abbrev month_at : List Text → ℕ → Text
month_at [] i = codes "undefined"
month_at (m ∷ ms) zero = m
month_at (m ∷ ms) (suc i) = month_at ms i

-- The fields of an invalid date are NaN.
unfoldable pub format_date : Option LocalTime → Text
format_date none = codes "undefined NaN, NaN NaN:NaN"
format_date (some t) =
    month_at months t.month
    ++ (codes " "
        ++ (pad_two (print t.day)
            ++ (codes ", "
                ++ (print t.year
                    ++ (codes " "
                        ++ (pad_two (print t.hours)
                            ++ (codes ":" ++ pad_two (print t.minutes))))))))
