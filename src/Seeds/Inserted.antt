-- ===== src/Seeds/Inserted.antt =====
-- Rows inserted one after another, where a row whose unique column is taken is skipped.
use text.Mathlib.TextEquality.{eq_iff}
use mathlib.Core.List.{append_assoc, append-nil}
use orchestronic_be.Base.{
  String, Bool, true, false, List, [], ◌∷◌, ◌++◌, ◌≡◌, refl, sym, arith, ◌===◌, ◌||◌, Bool-cases,
  inl, inr,
}
use orchestronic_be.Seeds.Store.{reject, taken, insert_new}

module _ {Row : Type 0} where
  pub reject_all : (xs : List Row) → reject (λ _. true) xs ≡ []
  unfolding reject
  reject_all [] = refl
  reject_all (x ∷ xs) = reject_all xs

  reject-ext :
      (p q : Row → Bool) → ((x : Row) → p x ≡ q x) → (xs : List Row) → reject p xs ≡ reject q xs
  unfolding reject
  reject-ext p q same [] = refl
  reject-ext p q same (x ∷ xs) = ground (arith, reject-ext p q same xs, same x)

  reject-reject :
      (p q : Row → Bool) (xs : List Row) → reject q (reject p xs) ≡ reject (λ x. q x || p x) xs
  unfolding reject
  reject-reject p q [] = refl
  reject-reject p q (x ∷ xs) = ground (arith, reject-reject p q xs)

  -- What a wider test leaves out need not be left out before.
  reject_narrower :
      (p q : Row → Bool)
      → ((x : Row) → p x ≡ true → q x ≡ true)
      → (xs : List Row) → reject q (reject p xs) ≡ reject q xs
  unfolding reject
  reject_narrower p q wider [] = refl
  reject_narrower p q wider (x ∷ xs) = elim (Bool-cases (p x)) [
    | inl e ↦ let w = wider x e in ground (arith, reject_narrower p q wider xs)
    | inr e ↦ ground (arith, reject_narrower p q wider xs)
  ]

module _ {Row : Type 0} (key : Row → String) where
  -- The rows of a file with the first of each name.
  unfoldable pub first_of_each : List Row → List Row
  first_of_each [] = []
  first_of_each (x ∷ xs) = x ∷ reject (λ y. key x === key y) (first_of_each xs)

  -- Inserting one part of a file and then the other is inserting the file.
  pub insert_new-append :
      (xs ys rows : List Row)
      → insert_new key (xs ++ ys) rows ≡ insert_new key ys (insert_new key xs rows)
  unfolding insert_new
  insert_new-append [] ys rows = refl
  insert_new-append (x ∷ xs) ys rows = insert_new-append xs ys _

  taken-append :
      (k : String) (xs ys : List Row) → taken key k (xs ++ ys) ≡ (taken key k xs || taken key k ys)
  unfolding taken
  taken-append k [] ys = refl
  taken-append k (x ∷ xs) ys = ground (arith, taken-append k xs ys)

  taken_one : (k : String) (x : Row) → taken key k (x ∷ []) ≡ (key x === k)
  unfolding taken
  taken_one k x = ground arith

  same-taken :
      (x y : Row) (rows : List Row)
      → (key x === key y) ≡ true
      → taken key (key x) rows ≡ true
      → taken key (key y) rows ≡ true
  same-taken x y rows e t = rw (sym ((eq_iff (key x) (key y)).0 e)) t

  pub insert_new-eq-append :
      (xs rows : List Row)
      → insert_new key xs rows ≡ rows ++ reject (λ y. taken key (key y) rows) (first_of_each xs)
  unfolding insert_new reject first_of_each
  insert_new-eq-append [] rows = sym (append-nil rows)
  insert_new-eq-append (x ∷ xs) rows = elim (Bool-cases (taken key (key x) rows)) [
    | inl there ↦
        let n =
          reject_narrower (λ y. key x === key y) (λ y. taken key (key y) rows)
            (λ y e. same-taken x y rows e there) (first_of_each xs) in
        rw there (rw n (insert_new-eq-append xs rows))
    | inr fresh ↦
        let n =
          reject-reject (λ y. key x === key y) (λ y. taken key (key y) rows) (first_of_each xs) in
        let m =
          reject-ext (λ y. taken key (key y) (rows ++ x ∷ []))
            (λ y. taken key (key y) rows || key x === key y)
            (λ y. ground (arith, taken-append (key y) rows (x ∷ []), taken_one (key y) x))
            (first_of_each xs) in
        let ih = insert_new-eq-append xs (rows ++ x ∷ []) in
        rw (fresh, ih, m, n) (append_assoc rows (x ∷ []) _)
  ]

  reject_none : (xs : List Row) → reject (λ _. false) xs ≡ xs
  unfolding reject
  reject_none [] = refl
  reject_none (x ∷ xs) = rw (reject_none xs)

  -- Into an empty table go the first rows of each name, in the order of the file.
  pub insert_new-first_of_each : (xs : List Row) → insert_new key xs [] ≡ first_of_each xs
  unfolding taken
  insert_new-first_of_each xs = rw (insert_new-eq-append xs []) (reject_none (first_of_each xs))
