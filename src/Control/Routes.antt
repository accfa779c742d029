-- ===== src/Control/Routes.antt =====
-- `query_routes` of src/control.rs.
pub mod Reached
use dln_node_knots.Prelude.{ℕ, Option, some, List, map, max, unwrap_or}
use dln_node_knots.Prelude.Act.{Act, pure, ◌>>=◌}
use dln_node_knots.Text.{Text}
use dln_node_knots.Ldk.{LdkService, World}
use dln_node_knots.Ldk.Routes.{RouteHop, FoundRoute, find_routes}
use dln_node_knots.Nnc.{NncError}

pub record QueryRoutesRequest : Type 0 where
  pub destination : Text
  pub amount : ℕ
  pub max_routes : Option ℕ

-- `extra` is left empty.
pub record Hop : Type 0 where
  pub pubkey : Text
  pub short_channel_id : Option Text
  pub fee : ℕ

pub record Route : Type 0 where
  pub total_fee : ℕ
  pub total_time_lock : ℕ
  pub hops : List Hop

abbrev pub to_hop : RouteHop → Hop
to_hop h = record { pubkey = h.pubkey; short_channel_id = some h.short_channel_id; fee = h.fee }

abbrev pub to_route : FoundRoute → Route
to_route r = record {
  total_fee = r.total_fee;
  total_time_lock = r.total_time_lock;
  hops = map to_hop r.hops;
}

module _ {S : Type 0} (ldk : LdkService S) where
  unfoldable pub query_routes : QueryRoutesRequest → Act (World S) NncError (List Route)
  query_routes r = do
    routes ← find_routes ldk r.destination r.amount (max (unwrap_or r.max_routes 1) 1)
    pure (map to_route routes)
