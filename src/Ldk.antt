-- ===== src/Ldk.antt =====
-- `LdkService` of src/lightning/ldk_service.rs: the node behind the handlers. A method is an action
-- on `World`, which holds the state of the node and the three tables of src/state.
pub mod Errors
pub mod Config
pub mod Start
pub mod Balance
pub mod History
pub mod Wait
pub mod Invoices
pub mod Send
pub mod Channels
pub mod Graph
pub mod Routes
use dln_node_knots.Prelude.{Bool}
use dln_node_knots.Prelude.Outcome.{Outcome, ok, map_err}
use dln_node_knots.Prelude.Act.{Act}
use dln_node_knots.Text.{Text}
use dln_node_knots.Node.{Library, Node}
use dln_node_knots.Node.Types.{Network}
use dln_node_knots.State.Offers.{OfferStore}
use dln_node_knots.State.Addresses.{AddressStore}
use dln_node_knots.State.Forwarding.{Forwards}

pub record LdkService (S : Type 0) : Type 0 where
  pub node : Node S
  pub lib : Library
  pub network : Network
  -- `keys_manager.is_some()`: the signer is a VLS one
  pub has_keys_manager : Bool

pub record World (S : Type 0) : Type 0 where
  pub node : S
  pub offers : OfferStore
  pub addresses : AddressStore
  pub forwards : Forwards

module _ {S E A : Type 0} where
  -- A call of the node that cannot fail.
  abbrev pub call : (S → A × S) → Act (World S) E A
  call f w = let (a, s) = f w.node in (ok a, record w { node = s })

  -- A call that can, with the error that its failure becomes.
  abbrev pub try_call : (Text → E) → (S → Outcome Text A × S) → Act (World S) E A
  try_call to_error f w = let (r, s) = f w.node in (map_err to_error r, record w { node = s })

module _ {W E F A : Type 0} where
  -- `action.map_err(f)`
  abbrev pub catch_as : (E → F) → Act W E A → Act W F A
  catch_as f m w = let (r, w') = m w in (map_err f r, w')
