-- ===== src/Ldk/Routes/Cheapest/Found.antt =====
-- The first route that find_routes (src/lightning/ldk_service.rs) answers.
use dln_node_knots.Prelude.{
  ℕ, suc, ◌≤◌, ◌<◌, List, [], ◌∷◌, ◌≡◌, ◌≢◌, refl, ap, ◌⊎◌, inl, inr, arith, length, subst,
}
use dln_node_knots.Prelude.Select.{Has}
use dln_node_knots.Prelude.Outcome.{ok, ok_unique}
use dln_node_knots.Text.{Text}
use dln_node_knots.Text.Equality.{text_eq_iff}
use dln_node_knots.Node.Types.{NodeId, PublicKey, Graph}
use dln_node_knots.Ldk.{LdkService, World}
use dln_node_knots.Ldk.Routes.{
  Search, FoundRoute, adjacency, search_graph, contains, edge_count, start, find_routes,
}
use dln_node_knots.Ldk.Routes.Queue.{PathHop}
use dln_node_knots.Ldk.Routes.Loop.{search-rule, search_graph-ends}
use dln_node_knots.Ldk.Routes.Walks.{IsWalk, sum_fees}
use dln_node_knots.Ldk.Routes.Totals.{Fits}
use dln_node_knots.Ldk.Routes.Order.{Held, explore-Held, start-Held}
use dln_node_knots.Ldk.Routes.Simple.{IsWalk-Rest}
use dln_node_knots.Ldk.Routes.Answers.{own_node, read_graph, IsAnswer, find_routes-IsAnswer}
use dln_node_knots.Ldk.Routes.Cheapest.{IsWithinLimit, Leads, IsFirst, explore-Leads}
use dln_node_knots.Ldk.Routes.Trails.{Trails, explore-Trails}

module _ (amount : ℕ) (graph : Graph) (our_node dest : NodeId) (fits : Fits graph)
    (limit : IsWithinLimit amount graph our_node) where
  start-Leads :
      (path : List PathHop)
      → IsWalk amount graph our_node path dest
      → Leads amount graph our_node dest (sum_fees path) (start our_node)
  start-Leads path walk =
      let (rest, walks, simple, price) = IsWalk-Rest amount graph dest our_node path walk in
      inl (record {
        entry = record { cost = 0; node = our_node; path = [] };
        rest = rest;
        listed = inl refl;
        short = omega arith;
        walk = walks;
        fresh = simple;
        price = omega (arith, price);
        none_yet = refl;
      })

  -- At the end there is a first route.
  Leads-end :
      (total max_routes : ℕ) (s : Search)
      → 0 < max_routes
      → Leads amount graph our_node dest total s
      → (s.heap ≡ []) ⊎ (max_routes ≤ length s.found)
      → IsFirst amount graph our_node dest total s.found
  Leads-end total max_routes s asked (inr f) stopped = f
  Leads-end total max_routes s asked (inl a) (inl empty) =
      absurd (subst (Has a.entry) empty a.listed)
  Leads-end total max_routes s asked (inl a) (inr enough) =
      absurd (omega (arith, ap (λ (rs : List FoundRoute). length rs) a.none_yet, enough, asked))

  search_graph-IsFirst :
      {E : Type 0} (max_routes : ℕ) (routes : List FoundRoute) (path : List PathHop)
      → 0 < max_routes
      → IsWalk amount graph our_node path dest
      → search_graph {E = E} graph our_node dest amount max_routes ≡ ok routes
      → IsFirst amount graph our_node dest (sum_fees path) routes
  unfolding search_graph contains
  search_graph-IsFirst max_routes routes path asked walk h =
      let adj = adjacency amount graph in
      let total = sum_fees path in
      let (s, kept, is, stopped) =
        search-rule adj dest amount max_routes
          (λ v.
            Held amount graph our_node dest fits v
            × Trails our_node v
            × Leads amount graph our_node dest total v)
          (λ e v more k. (
            explore-Held amount graph our_node dest fits max_routes e v k.0,
            explore-Trails amount graph our_node dest max_routes e v k.0.0.0.0 k.1,
            explore-Leads amount graph our_node dest limit max_routes total e v k.0.0.0.0 k.1.0
                k.0.1.sorted k.2,
          ))
          (suc (suc (edge_count adj))) (start our_node).heap [] []
          (
            start-Held amount graph our_node dest fits,
            (record { simple = refl; past = tt }, tt),
            start-Leads path walk,
          )
          routes h in
      subst (IsFirst amount graph our_node dest total) is
        (Leads-end total max_routes s asked kept.2 stopped)

module _ {S E : Type 0} (ldk : LdkService S) (dest_pubkey : Text) (amount max_routes : ℕ)
    (w : World S) where
  -- On a graph with u32 base fees and u16 time locks, where no walk from this node that visits no
  -- node twice has more than six channels, and when at least one route is asked for: if any walk
  -- over channels that carry the amount leads from this node to another one, the search for that
  -- one finds routes, the first of them is such a walk with the exact sums of its fees and time locks,
  -- and its fee is at most the sum of the fees of that walk, however long that is.
  pub find_routes-IsCheapest :
      (pk : PublicKey) (path : List PathHop)
      → ldk.lib.parse_public_key dest_pubkey ≡ ok pk
      → Fits (read_graph ldk w)
      → IsWithinLimit amount (read_graph ldk w) (own_node ldk w)
      → IsWalk amount (read_graph ldk w) (own_node ldk w) path (ldk.lib.node_id_of pk)
      → own_node ldk w ≢ ldk.lib.node_id_of pk
      → 0 < max_routes
      → (r : FoundRoute) × (rs : List FoundRoute) × ((find_routes {E = E} ldk dest_pubkey amount
            max_routes w).0
          ≡ ok (r ∷ rs))
        × IsAnswer amount (read_graph ldk w) (own_node ldk w) (ldk.lib.node_id_of pk) r
        × (r.total_fee ≤ sum_fees path)
  unfolding find_routes
  find_routes-IsCheapest pk path parsed fits limit walk elsewhere asked =
      let graph = read_graph ldk w in
      let us = own_node ldk w in
      let dest = ldk.lib.node_id_of pk in
      let (routes, is) = search_graph-ends {E = E} graph us dest amount max_routes in
      let f =
        search_graph-IsFirst amount graph us dest fits limit max_routes routes path asked walk is in
      let answered : (find_routes {E = E} ldk dest_pubkey amount max_routes w).0
          ≡ ok (f.route ∷ f.others) =
        ground (arith, parsed, text_eq_iff us dest, elsewhere, is, f.first) in
      let (pk', parsed', answer) =
        (find_routes-IsAnswer ldk dest_pubkey amount max_routes w fits (f.route ∷ f.others)
          answered).0 in
      (
        f.route,
        f.others,
        answered,
        subst (λ k. IsAnswer amount graph us (ldk.lib.node_id_of k) f.route)
            (ok_unique parsed' parsed) answer,
        f.fee,
      )
