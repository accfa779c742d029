-- ===== src/Prelude/Select.antt =====
-- `iter().filter(test)`, `iter().any(test)` and `iter().find(test)`, with a Boolean test.
use dln_node_knots.Prelude.{
  List, [], ◌∷◌, Bool, true, false, ◌||◌, Option, none, some, ◌≡◌, refl, ◌⊎◌, ◌++◌, ◌≤◌, ◌↔◌,
  length, inl, inr, arith, if◌then◌else◌, All,
}

module _ {ℓ} {A : Type ℓ} where
  abbrev pub select : (A → Bool) → List A → List A
  select test [] = []
  select test (x ∷ xs) = if test x then x ∷ select test xs else select test xs

  abbrev pub find_by : (A → Bool) → List A → Option A
  find_by test [] = none
  find_by test (x ∷ xs) = if test x then some x else find_by test xs

  abbrev pub any_by : (A → Bool) → List A → Bool
  any_by test [] = false
  any_by test (x ∷ xs) = test x || any_by test xs

module _ {A : Type 0} where
  -- A position of `a` in the list.
  abbrev pub Has : A → List A → Type 0
  Has a [] = ⊥
  Has a (x ∷ xs) = (a ≡ x) ⊎ Has a xs

  pub select-append :
      (test : A → Bool) (xs ys : List A) → select test (xs ++ ys) ≡ select test xs ++ select test ys
  select-append test [] ys = refl
  select-append test (x ∷ xs) ys = ground (arith, select-append test xs ys)

  pub length-select-le : (test : A → Bool) (xs : List A) → length (select test xs) ≤ length xs
  length-select-le test [] = omega arith
  length-select-le test (x ∷ xs) = ground (arith, length-select-le test xs)

  -- An entry that passes the test is kept, and no other entry is there.
  pub Has-select :
      (test : A → Bool) (xs : List A) (a : A)
      → Has a (select test xs) ↔ (Has a xs × (test a ≡ true))
  Has-select test [] a = (λ h. absurd h, λ h. absurd h.0)
  Has-select test (x ∷ xs) a = let ih = Has-select test xs a in ground (arith, ih.0, ih.1)

  pub find_by_sound :
      (test : A → Bool) (xs : List A) (a : A)
      → find_by test xs ≡ some a
      → Has a xs × (test a ≡ true)
  find_by_sound test [] a h = cc
  find_by_sound test (x ∷ xs) a h = ground (arith, find_by_sound test xs a)

  pub find_by-none :
      (test : A → Bool) (xs : List A) → find_by test xs ≡ none → All (λ a. test a ≡ false) xs
  find_by-none test [] h = tt
  find_by-none test (x ∷ xs) h = ground (arith, find_by-none test xs)

  pub All-select {κ} :
      (P : A → Type κ) (test : A → Bool) (xs : List A)
      → ((a : A) → Has a xs → test a ≡ true → P a)
      → All P (select test xs)
  All-select P test [] h = tt
  All-select P test (x ∷ xs) h =
      ground (arith, All-select P test xs (λ a m. h a (inr m)), h x (inl refl))
