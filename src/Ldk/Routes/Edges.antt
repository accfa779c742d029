-- ===== src/Ldk/Routes/Edges.antt =====
-- The edges that find_routes (src/lightning/ldk_service.rs) reads off the gossip graph.
use dln_node_knots.Prelude.{
  ℕ, ◌≤◌, Option, none, some, List, [], ◌∷◌, ◌++◌, ◌≡◌, ◌⊎◌, ◌↔◌, inl, inr, arith, if◌then◌else◌,
  Bool-cases, Option-cases,
}
use dln_node_knots.Prelude.Select.{Has}
use dln_node_knots.Text.{text_eq}
use dln_node_knots.Text.Equality.{text_eq_iff, text_eq_refl}
use dln_node_knots.TextMap.{get, or_insert}
use dln_node_knots.TextMap.Laws.{get-update, get-or_insert}
use dln_node_knots.Node.Types.{NodeId, Graph, GraphChannel, ChannelUpdate}
use dln_node_knots.Ldk.Routes.{
  Adjacency, carries, edge_of, push_edge, add_direction, add_channel, add_channels, adjacency,
  edges_of,
}
use dln_node_knots.Ldk.Routes.Queue.{Edge}

-- A direction of a channel, from `tail` to `head`, gives the edge out of `node`: it has a policy,
-- whose bounds admit the amount.
abbrev pub IsDirection : ℕ → ℕ → NodeId → NodeId → Option ChannelUpdate → NodeId → Edge → Type 0
IsDirection amount scid tail head none node edge = ⊥
IsDirection amount scid tail head (some upd) node edge =
    (tail ≡ node)
    × (upd.htlc_minimum_msat ≤ amount)
    × (amount ≤ upd.htlc_maximum_msat)
    × (edge ≡ edge_of head scid upd)

-- One of the two directions of a channel of the graph does.
abbrev pub IsChannelEdge : ℕ → ℕ → Option GraphChannel → NodeId → Edge → Type 0
IsChannelEdge amount scid none node edge = ⊥
IsChannelEdge amount scid (some ch) node edge =
    IsDirection amount scid ch.node_one ch.node_two ch.one_to_two node edge
    ⊎ IsDirection amount scid ch.node_two ch.node_one ch.two_to_one node edge

-- One of the channels listed does.
abbrev pub IsEdge : ℕ → Graph → List ℕ → NodeId → Edge → Type 0
IsEdge amount graph [] node edge = ⊥
IsEdge amount graph (scid ∷ scids) node edge =
    IsChannelEdge amount scid (graph.channel scid) node edge ⊎ IsEdge amount graph scids node edge

edges_of-push_edge :
    (n m : NodeId) (edge : Edge) (adj : Adjacency)
    → edges_of n (push_edge m edge adj)
      ≡ (if text_eq m n then edges_of n adj ++ edge ∷ [] else edges_of n adj)
unfolding edges_of push_edge
edges_of-push_edge n m edge adj = elim (Option-cases (get m adj)) [
  | inl e ↦ ground (
    arith,
    e,
    get-update m n (λ edges. edges ++ edge ∷ []) (or_insert m [] adj),
    get-or_insert m n [] adj,
    get-or_insert m m [] adj,
    text_eq_refl m,
    text_eq_iff m n,
  )
  | inr (edges, e) ↦ ground (
    arith,
    e,
    get-update m n (λ edges. edges ++ edge ∷ []) (or_insert m [] adj),
    get-or_insert m n [] adj,
    get-or_insert m m [] adj,
    text_eq_refl m,
    text_eq_iff m n,
  )
]

Has-snoc : (e d : Edge) (es : List Edge) → Has e (es ++ d ∷ []) ↔ (Has e es ⊎ (e ≡ d))
Has-snoc e d [] = ground arith
Has-snoc e d (c ∷ es) = let ih = Has-snoc e d es in ground (arith, ih.0, ih.1)

module _ (amount : ℕ) (node : NodeId) (edge : Edge) where
  Has-add_direction :
      (scid : ℕ) (tail head : NodeId) (o : Option ChannelUpdate) (adj : Adjacency)
      → Has edge (edges_of node (add_direction amount tail head scid o adj))
        ↔ (Has edge (edges_of node adj) ⊎ IsDirection amount scid tail head o node edge)
  unfolding add_direction carries
  Has-add_direction scid tail head none adj = ground arith
  Has-add_direction scid tail head (some upd) adj =
      let snoc = Has-snoc edge (edge_of head scid upd) (edges_of node adj) in
      elim (Bool-cases (carries amount upd)) [
        | inr refused ↦ rw refused (ground (arith, refused))
        | inl carried ↦
            rw (carried, edges_of-push_edge node tail (edge_of head scid upd) adj)
              (ground (arith, carried, snoc.0, snoc.1, text_eq_iff tail node))
      ]

  Has-add_channel :
      (scid : ℕ) (o : Option GraphChannel) (adj : Adjacency)
      → Has edge (edges_of node (add_channel amount scid o adj))
        ↔ (Has edge (edges_of node adj) ⊎ IsChannelEdge amount scid o node edge)
  unfolding add_channel
  Has-add_channel scid none adj = ground arith
  Has-add_channel scid (some ch) adj =
      let first = Has-add_direction scid ch.node_one ch.node_two ch.one_to_two adj in
      let second =
        Has-add_direction scid ch.node_two ch.node_one ch.two_to_one
          (add_direction amount ch.node_one ch.node_two scid ch.one_to_two adj) in
      ground (arith, first.0, first.1, second.0, second.1)

  Has-add_channels :
      (graph : Graph) (scids : List ℕ) (adj : Adjacency)
      → Has edge (edges_of node (add_channels amount graph scids adj))
        ↔ (Has edge (edges_of node adj) ⊎ IsEdge amount graph scids node edge)
  unfolding add_channels
  Has-add_channels graph [] adj = ground arith
  Has-add_channels graph (scid ∷ scids) adj =
      let here = Has-add_channel scid (graph.channel scid) adj in
      let rest = Has-add_channels graph scids (add_channel amount scid (graph.channel scid) adj) in
      ground (arith, here.0, here.1, rest.0, rest.1)

  -- The edges out of a node that the search uses are those of the channels that the graph lists,
  -- each in a direction with a policy that carries the amount.
  pub Has-adjacency :
      (graph : Graph)
      → Has edge (edges_of node (adjacency amount graph))
        ↔ IsEdge amount graph graph.list_channels node edge
  unfolding adjacency edges_of get
  Has-adjacency graph =
      let all = Has-add_channels graph graph.list_channels [] in ground (arith, all.0, all.1)
