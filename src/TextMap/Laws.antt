-- ===== src/TextMap/Laws.antt =====
-- The laws of the dictionary: one for each operation, and what keeps an invariant of the entries.
use dln_node_knots.Prelude.{
  none, some, [], ◌∷◌, ◌≡◌, refl, arith, if◌then◌else◌, map_option, or_else, All, Bool-cases, inl,
  inr,
}
use dln_node_knots.Prelude.Select.{Has}
use dln_node_knots.Text.{Text, text_eq}
use dln_node_knots.Text.Equality.{text_eq_iff, text_eq_refl}
use dln_node_knots.TextMap.{TextMap, get, insert, or_insert, update}

module _ {ℓ} {V : Type ℓ} where
  pub get-insert :
      (k j : Text) (v : V) (m : TextMap V)
      → get j (insert k v m) ≡ (if text_eq k j then some v else get j m)
  unfolding get insert
  get-insert k j v [] = refl
  get-insert k j v ((i, w) ∷ m) =
      ground (arith, text_eq_iff k j, text_eq_iff i k, text_eq_iff i j, get-insert k j v m)

  pub get-or_insert :
      (k j : Text) (v : V) (m : TextMap V)
      → get j (or_insert k v m) ≡ (if text_eq k j then or_else (get k m) (some v) else get j m)
  unfolding get or_insert
  get-or_insert k j v [] = ground (arith, text_eq_iff k j)
  get-or_insert k j v ((i, w) ∷ m) =
      ground (arith, text_eq_iff k j, text_eq_iff i k, text_eq_iff i j, get-or_insert k j v m)

  pub get-update :
      (k j : Text) (f : V → V) (m : TextMap V)
      → get j (update k f m) ≡ (if text_eq k j then map_option f (get k m) else get j m)
  unfolding get update
  get-update k j f [] = ground arith
  get-update k j f ((i, w) ∷ m) =
      ground (arith, text_eq_iff k j, text_eq_iff i k, text_eq_iff i j, get-update k j f m)

module _ {V : Type 0} where
  -- No entry of the list has the key.
  abbrev pub Lacks : Text → TextMap V → Type 0
  Lacks k m = get k m ≡ none

  -- Every key once, as in a hash table.
  abbrev pub Distinct : TextMap V → Type 0
  Distinct [] = Unit {0}
  Distinct ((k, v) ∷ m) = Lacks k m × Distinct m

  pub insert-Distinct : (k : Text) (v : V) (m : TextMap V) → Distinct m → Distinct (insert k v m)
  unfolding insert
  insert-Distinct k v [] d = unfold get in (refl, tt)
  insert-Distinct k v ((j, w) ∷ m) d =
      ground
        (arith, get-insert k j v m, insert-Distinct k v m d.1, text_eq_iff k j, text_eq_iff j k)

  pub or_insert-Distinct :
      (k : Text) (v : V) (m : TextMap V) → Distinct m → Distinct (or_insert k v m)
  unfolding or_insert
  or_insert-Distinct k v [] d = unfold get in (refl, tt)
  or_insert-Distinct k v ((j, w) ∷ m) d =
      ground (
        arith,
        get-or_insert k j v m,
        or_insert-Distinct k v m d.1,
        text_eq_iff k j,
        text_eq_iff j k,
      )

  pub update-Distinct :
      (k : Text) (f : V → V) (m : TextMap V) → Distinct m → Distinct (update k f m)
  unfolding update
  update-Distinct k f [] d = tt
  update-Distinct k f ((j, w) ∷ m) d =
      ground
        (arith, get-update k j f m, update-Distinct k f m d.1, text_eq_iff k j, text_eq_iff j k)

  -- In a table with every key once, the entries are what `get` finds.
  pub get_of_Has : (k : Text) (v : V) (m : TextMap V) → Distinct m → Has (k, v) m → get k m ≡ some v
  unfolding get
  get_of_Has k v [] d h = absurd h
  get_of_Has k v ((j, w) ∷ m) d h =
      ground (arith, text_eq_refl k, get_of_Has k v m d.1, text_eq_iff j k)

  pub get-Has : (k : Text) (v : V) (m : TextMap V) → get k m ≡ some v → Has (k, v) m
  unfolding get
  get-Has k v [] e = cc
  get-Has k v ((j, w) ∷ m) e = ground (arith, text_eq_iff j k, get-Has k v m)

module _ {ℓ κ} {V : Type ℓ} (P : V → Type κ) where
  -- What holds of every value, in the table and written.
  abbrev pub AllValues : TextMap V → Type κ
  AllValues = All (λ e. P e.1)

  pub insert-AllValues :
      (k : Text) (v : V) (m : TextMap V) → P v → AllValues m → AllValues (insert k v m)
  unfolding insert
  insert-AllValues k v [] p ps = (p, tt)
  insert-AllValues k v ((j, w) ∷ m) p ps = elim (Bool-cases (text_eq j k)) [
    | inl same ↦ rw same (p, ps.1)
    | inr other ↦ rw other (ps.0, insert-AllValues k v m p ps.1)
  ]

  pub or_insert-AllValues :
      (k : Text) (v : V) (m : TextMap V) → P v → AllValues m → AllValues (or_insert k v m)
  unfolding or_insert
  or_insert-AllValues k v [] p ps = (p, tt)
  or_insert-AllValues k v ((j, w) ∷ m) p ps = elim (Bool-cases (text_eq j k)) [
    | inl same ↦ rw same ps
    | inr other ↦ rw other (ps.0, or_insert-AllValues k v m p ps.1)
  ]

  pub update-AllValues :
      (k : Text) (f : V → V) (m : TextMap V)
      → ((v : V) → P v → P (f v))
      → AllValues m
      → AllValues (update k f m)
  unfolding update
  update-AllValues k f [] pf ps = tt
  update-AllValues k f ((j, w) ∷ m) pf ps = elim (Bool-cases (text_eq j k)) [
    | inl same ↦ rw same (pf w ps.0, ps.1)
    | inr other ↦ rw other (ps.0, update-AllValues k f m pf ps.1)
  ]
