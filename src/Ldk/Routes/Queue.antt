-- ===== src/Ldk/Routes/Queue.antt =====
-- The heap of find_routes (src/lightning/ldk_service.rs): its entries, their order, and its push.
use Prim.Native.Nat.{compare, Ordering}
use dln_node_knots.Prelude.{ℕ, Bool, true, false, List, [], ◌∷◌, if◌then◌else◌}
use dln_node_knots.Text.{Bytes}
use dln_node_knots.Node.Types.{NodeId}

-- `type Edge`: the neighbor, the channel, its base fee, its rate and its time lock.
pub record Edge : Type 0 where
  pub next : NodeId
  pub scid : ℕ
  pub base : ℕ
  pub prop : ℕ
  pub cltv : ℕ

-- One hop of a path: the node it leads to, the channel, the fee and the time lock.
pub record PathHop : Type 0 where
  pub node : NodeId
  pub scid : ℕ
  pub fee : ℕ
  pub cltv : ℕ

-- An element of the heap.
pub record Entry : Type 0 where
  pub cost : ℕ
  pub node : NodeId
  pub path : List PathHop

-- `Ord` of a tuple: the first difference decides.
abbrev pub or_then : Ordering → Ordering → Ordering
or_then Ordering.eq o = o
or_then Ordering.lt o = Ordering.lt
or_then Ordering.gt o = Ordering.gt

unfoldable pub compare_bytes : Bytes → Bytes → Ordering
compare_bytes [] [] = Ordering.eq
compare_bytes [] (b ∷ t) = Ordering.lt
compare_bytes (a ∷ s) [] = Ordering.gt
compare_bytes (a ∷ s) (b ∷ t) = or_then (compare a b) (compare_bytes s t)

compare_hops : PathHop → PathHop → Ordering
compare_hops h g =
    or_then (compare_bytes h.node g.node)
      (or_then (compare h.scid g.scid) (or_then (compare h.fee g.fee) (compare h.cltv g.cltv)))

compare_paths : List PathHop → List PathHop → Ordering
compare_paths [] [] = Ordering.eq
compare_paths [] (g ∷ q) = Ordering.lt
compare_paths (h ∷ p) [] = Ordering.gt
compare_paths (h ∷ p) (g ∷ q) = or_then (compare_hops h g) (compare_paths p q)

unfoldable pub compare_entries : Entry → Entry → Ordering
unfolding compare_paths compare_hops
compare_entries d e =
    or_then (compare d.cost e.cost)
      (or_then (compare_bytes d.node e.node) (compare_paths d.path e.path))

abbrev pub is_gt : Ordering → Bool
is_gt Ordering.gt = true
is_gt Ordering.eq = false
is_gt Ordering.lt = false

-- The `BinaryHeap` of reversed entries, as the list of its entries in the order of its pops.
unfoldable pub push : Entry → List Entry → List Entry
push e [] = e ∷ []
push e (d ∷ heap) =
    let rest = push e heap in if is_gt (compare_entries e d) then d ∷ rest else e ∷ d ∷ heap
