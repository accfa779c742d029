-- ===== src/Ldk/Routes/Totals.antt =====
-- Bounds on the totals of a route of find_routes (src/lightning/ldk_service.rs).
use dln_node_knots.Prelude.{
  ℕ, ◌*◌, ◌^◌, ◌≤◌, ◌<◌, Option, none, some, List, [], ◌∷◌, ◌≡◌, inl, inr, arith, length, ap, subst,
  sym,
}
use dln_node_knots.Node.Types.{NodeId, Graph, GraphChannel, ChannelUpdate}
use dln_node_knots.Ldk.Routes.{hop_fee}
use dln_node_knots.Ldk.Routes.Queue.{Edge, PathHop}
use dln_node_knots.Ldk.Routes.Edges.{IsDirection, IsChannelEdge, IsEdge}
use dln_node_knots.Ldk.Routes.Walks.{IsWalk, sum_fees, sum_cltv}

-- The base fee of a policy is a u32, and its time lock a u16.
abbrev pub PolicyFits : Option ChannelUpdate → Type 0
PolicyFits none = Unit {0}
PolicyFits (some upd) = (upd.base_msat < 2 ^ 32) × (upd.cltv_expiry_delta < 2 ^ 16)

abbrev pub ChannelFits : Option GraphChannel → Type 0
ChannelFits none = Unit {0}
ChannelFits (some ch) = PolicyFits ch.one_to_two × PolicyFits ch.two_to_one

abbrev pub Fits : Graph → Type 0
Fits graph = (scid : ℕ) → ChannelFits (graph.channel scid)

-- u32::MAX, and what the proportional part of a fee comes to at most.
abbrev pub fee_bound : ℕ
fee_bound = 2 ^ 45

hop_fee-lt : (amount : ℕ) (edge : Edge) → edge.base < 2 ^ 32 → hop_fee amount edge < fee_bound
unfolding hop_fee
hop_fee-lt amount edge h = omega arith

abbrev EdgeFits : Edge → Type 0
EdgeFits edge = (edge.base < 2 ^ 32) × (edge.cltv < 2 ^ 16)

IsDirection-EdgeFits :
    (amount scid : ℕ) (tail head : NodeId) (o : Option ChannelUpdate) (node : NodeId) (edge : Edge)
    → PolicyFits o
    → IsDirection amount scid tail head o node edge
    → EdgeFits edge
IsDirection-EdgeFits amount scid tail head none node edge fits h = absurd h
IsDirection-EdgeFits amount scid tail head (some upd) node edge fits h =
    subst EdgeFits (sym h.3) fits

IsChannelEdge-EdgeFits :
    (amount scid : ℕ) (o : Option GraphChannel) (node : NodeId) (edge : Edge)
    → ChannelFits o
    → IsChannelEdge amount scid o node edge
    → EdgeFits edge
IsChannelEdge-EdgeFits amount scid none node edge fits h = absurd h
IsChannelEdge-EdgeFits amount scid (some ch) node edge fits (inl h) =
    IsDirection-EdgeFits amount scid ch.node_one ch.node_two ch.one_to_two node edge fits.0 h
IsChannelEdge-EdgeFits amount scid (some ch) node edge fits (inr h) =
    IsDirection-EdgeFits amount scid ch.node_two ch.node_one ch.two_to_one node edge fits.1 h

IsEdge-EdgeFits :
    (amount : ℕ) (graph : Graph) (scids : List ℕ) (node : NodeId) (edge : Edge)
    → Fits graph
    → IsEdge amount graph scids node edge
    → EdgeFits edge
IsEdge-EdgeFits amount graph [] node edge fits h = absurd h
IsEdge-EdgeFits amount graph (scid ∷ scids) node edge fits (inl h) =
    IsChannelEdge-EdgeFits amount scid (graph.channel scid) node edge (fits scid) h
IsEdge-EdgeFits amount graph (scid ∷ scids) node edge fits (inr h) =
    IsEdge-EdgeFits amount graph scids node edge fits h

module _ (amount : ℕ) (graph : Graph) (fits : Fits graph) where
  pub IsEdge-fee :
      (node : NodeId) (edge : Edge)
      → IsEdge amount graph graph.list_channels node edge
      → (hop_fee amount edge < fee_bound) × (edge.cltv < 2 ^ 16)
  IsEdge-fee node edge h =
      let e = IsEdge-EdgeFits amount graph graph.list_channels node edge fits h in
      (hop_fee-lt amount edge e.0, e.1)

  -- The totals of a walk are bounded by the number of its hops.
  pub IsWalk-totals :
      (from : NodeId) (path : List PathHop) (to : NodeId)
      → IsWalk amount graph from path to
      → (sum_fees path ≤ length path * fee_bound) × (sum_cltv path ≤ length path * 2 ^ 16)
  IsWalk-totals from [] to walk = (omega arith, omega arith)
  IsWalk-totals from (h ∷ path) to ((edge, is, same), walk) =
      let rest = IsWalk-totals h.node path to walk in
      let bound = IsEdge-fee from edge is in
      let fee : h.fee ≡ hop_fee amount edge = unfold hop_fee in ap (λ (g : PathHop). g.fee) same in
      let cltv : h.cltv ≡ edge.cltv = ap (λ (g : PathHop). g.cltv) same in
      (omega (arith, rest.0, bound.0, fee), omega (arith, rest.1, bound.1, cltv))
