-- ===== src/TextMap.antt =====
-- `HashMap<String, V>` of the standard library, as the list of its entries. The list stands for
-- the table in one of its iteration orders: the theorems range over every list, hence every order.
pub mod Laws
use dln_node_knots.Prelude.{Option, none, some, List, [], ◌∷◌, map, if◌then◌else◌}
use dln_node_knots.Text.{Text, text_eq}

abbrev pub TextMap {ℓ} : Type ℓ → Type ℓ
TextMap V = List (Text × V)

module _ {ℓ} {V : Type ℓ} where
  -- `map.get(k)`
  unfoldable pub get : Text → TextMap V → Option V
  get k [] = none
  get k ((j, v) ∷ m) = if text_eq j k then some v else get k m

  -- `map.insert(k, v)` overwrites
  unfoldable pub insert : Text → V → TextMap V → TextMap V
  insert k v [] = (k, v) ∷ []
  insert k v ((j, w) ∷ m) = if text_eq j k then (j, v) ∷ m else (j, w) ∷ insert k v m

  -- `map.entry(k).or_insert(v)` does not
  unfoldable pub or_insert : Text → V → TextMap V → TextMap V
  or_insert k v [] = (k, v) ∷ []
  or_insert k v ((j, w) ∷ m) = if text_eq j k then (j, w) ∷ m else (j, w) ∷ or_insert k v m

  -- a write through `map.get_mut(k)`
  unfoldable pub update : Text → (V → V) → TextMap V → TextMap V
  update k f [] = []
  update k f ((j, w) ∷ m) = if text_eq j k then (j, f w) ∷ m else (j, w) ∷ update k f m

  -- `map.values()`
  abbrev pub values : TextMap V → List V
  values = map (λ e. e.1)
