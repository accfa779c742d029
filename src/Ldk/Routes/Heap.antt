-- ===== src/Ldk/Routes/Heap.antt =====
-- The heap of find_routes (src/lightning/ldk_service.rs): what its pushes keep.
use dln_node_knots.Prelude.{
  ℕ, false, List, [], ◌∷◌, ◌≡◌, refl, sym, ap, ◌∙◌, inl, inr, arith, if◌then◌else◌, Bool-cases, All,
}
use dln_node_knots.Prelude.Select.{Has}
use dln_node_knots.Node.Types.{NodeId}
use dln_node_knots.Ldk.Routes.{push_edges, contains, extend}
use dln_node_knots.Ldk.Routes.Queue.{Edge, Entry, push, is_gt, compare_entries}

pub push-All :
    (P : Entry → Type 0) (e : Entry) (heap : List Entry) → P e → All P heap → All P (push e heap)
unfolding push
push-All P e [] p ps = (p, tt)
push-All P e (d ∷ heap) p ps = elim (Bool-cases (is_gt (compare_entries e d))) [
  | inl later ↦ rw later (ps.0, push-All P e heap p ps.1)
  | inr first ↦ rw first (p, ps)
]

-- Where nothing is lost, an entry is still in the heap after a push.
pub Has-push : (d e : Entry) (heap : List Entry) → Has d (e ∷ heap) → Has d (push e heap)
unfolding push
Has-push d e [] h = h
Has-push d e (c ∷ heap) h = ground (arith, Has-push d e heap)

module _ (amount : ℕ) (e : Entry) (visited : List NodeId) where
  -- What holds of the entries that one round pushes holds of the heap after it.
  pub push_edges-All :
      (P : Entry → Type 0) (edges : List Edge) (heap : List Entry)
      → ((edge : Edge)
          → Has edge edges
          → contains edge.next visited ≡ false
          → P (extend amount e edge))
      → All P heap
      → All P (push_edges amount e visited edges heap)
  unfolding push_edges
  push_edges-All P [] heap pushed ps = ps
  push_edges-All P (edge ∷ edges) heap pushed ps =
      let rest = λ (d : Edge) (h : Has d edges). pushed d (inr h) in
      elim (Bool-cases (contains edge.next visited)) [
        | inl seen ↦ rw seen (push_edges-All P edges heap rest ps)
        | inr new ↦ rw new (
            push_edges-All P edges (push (extend amount e edge) heap) rest
              (push-All P (extend amount e edge) heap (pushed edge (inl refl) new) ps))
      ]

  -- One round drops nothing from the heap.
  pub Has-push_edges :
      (d : Entry) (edges : List Edge) (heap : List Entry)
      → Has d heap
      → Has d (push_edges amount e visited edges heap)
  unfolding push_edges
  Has-push_edges d [] heap h = h
  Has-push_edges d (edge ∷ edges) heap h = elim (Bool-cases (contains edge.next visited)) [
    | inl seen ↦ rw seen (Has-push_edges d edges heap h)
    | inr new ↦ rw new (
        Has-push_edges d edges (push (extend amount e edge) heap)
          (Has-push d (extend amount e edge) heap (inr h)))
  ]

  -- An edge to a node that was not visited is pushed.
  pub pushed-push_edges :
      (edge : Edge) (edges : List Edge) (heap : List Entry)
      → contains edge.next visited ≡ false
      → Has edge edges
      → Has (extend amount e edge) (push_edges amount e visited edges heap)
  unfolding push_edges
  pushed-push_edges edge [] heap new h = absurd h
  pushed-push_edges edge (d ∷ edges) heap new (inl same) =
      let heap' = push (extend amount e d) heap in
      rw (ap (λ (c : Edge). contains c.next visited) (sym same) ∙ new) (
        Has-push_edges (extend amount e edge) edges heap' (
          Has-push (extend amount e edge) (extend amount e d) heap
            (inl (ap (extend amount e) same))))
  pushed-push_edges edge (d ∷ edges) heap new (inr h) =
      pushed-push_edges edge edges
        (if contains d.next visited then heap else push (extend amount e d) heap) new h
