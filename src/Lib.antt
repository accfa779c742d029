-- ===== src/Lib.antt =====
-- dln-node-knots: a Lightning node over LDK that answers wallet requests (NWC) and control
-- requests (NNC) sent through Nostr relays. The program has these parts.
--
-- State (src/state): the offers, the addresses and the forwarding history that the node remembers.
-- `State.Offers`, `State.Addresses` and `State.Forwarding` have one function per function of
-- offer_store.rs, address_store.rs and forwarding_store.rs, under the same names. A HashMap is the
-- list of its entries, in any order (`TextMap`); a lock is not modelled, since each call holds it
-- alone.
--
-- The node service (src/lightning/ldk_service.rs): `Ldk` and its children. A method of
-- `LdkService` is an action on `World`, which holds the state of the node and the three tables,
-- and returns an outcome: a success, an error, a panic, or the end of the fuel (`Prelude.Outcome`,
-- `Prelude.Act`). `Ldk.Config` has parse_network and validate, `Ldk.Start` start_from_config,
-- `Ldk.Errors` the errors and their texts, `Ldk.Balance` get_balance, `Ldk.Invoices` plain and
-- hold invoices, `Ldk.Send` the payments out, the offers and the lookups, `Ldk.Wait`
-- wait_for_outbound_payment, `Ldk.History` list_payments_filtered, `Ldk.Channels` channels, peers
-- and fees, `Ldk.Graph` the gossip graph, `Ldk.Routes` the route search find_routes, with its heap
-- in `Ldk.Routes.Queue`. `Scid` has format_scid and parse_scid, `Hex` the hexadecimal texts of
-- ldk_service.rs, wallet.rs, events.rs and lib.rs.
--
-- The handlers (src/wallet.rs, src/control.rs): `Wallet` with `Wallet.Core`, `Wallet.Invoices`,
-- `Wallet.Requests`, `Wallet.Lookup`, `Wallet.Addresses`, `Wallet.Offers`, `Wallet.Uri` (pay),
-- `Wallet.Receive` and `Wallet.Quote`, and `Control` with `Control.Network` and `Control.Routes`.
-- They call the service and the tables, and turn its errors into those of `Nnc`. A request or a
-- response is a record of the fields that the handler reads or writes.
--
-- The events (src/events.rs): `Events` has `handle`, which returns the notice that it hands to the
-- notifier and writes the forwarding history, and `Events.Delivery` what becomes of the notice.
--
-- The service (src/service.rs): `Server` has the turns of the node, each a request to one handler
-- or a round of the event pump, and `Server.Runs` the calls of the tables that handlers make.
-- `Server.Pump` has the rounds of the pump against the queue of events. `Server.Methods` and
-- `Server.Handlers` go through every method and every handler.
--
-- The start (src/main.rs): `Main` has what main does between reading its configuration and running
-- the service: the keys, the owners, and the configuration that `Ldk.Start` starts the node from.
--
-- Other crates and the operating system are parameters: `Node.Library` for functions that compute,
-- `Node.Node` for effects, each of which takes the state of everything outside and returns the
-- state that it leaves, so that other threads, peers and the clock may do anything between two
-- calls. Their types (`Node.Types`) have the fields that this program reads. The builder of the
-- node and the VLS signer are `Ldk.Start.Crates`, `nostr-sdk` is `Main.Nostr`, and the notifier of
-- `nostr-ln` is `Events.Delivery.Notifier`. Each access of a handler to a table is one call of
-- that table. Handlers run one after another; `Server.Contents` has what the tables hold once the
-- order of the entries of a HashMap is forgotten, and what the calls promise of it.
--
-- Texts are lists of UTF-8 bytes (`Text`). Numbers are natural numbers; an addition or a product
-- of a u64 that the code does not check wraps around at 2 ^ 64, as in a release build, and usize
-- is taken as 64 bits. Two loops run on fuel. That of wait_for_outbound_payment has as many rounds
-- as its timeout has intervals of 100 milliseconds, and two more: each round that goes on has
-- slept for one interval, so that on a clock that does not go back the timeout has passed before
-- the fuel is spent. That of find_routes has as many rounds as there are edges, and two more: a
-- node is visited once, so that each edge is pushed once. Its binary heap is the list of its
-- entries in the order in which it gives them out, which their total order determines.
--
-- Not modelled: the bridge to the VLS signer (vls_keys_bridge), which passes each call on; the
-- relays, grants and rate limits of service.rs, which are another crate's; the reading of
-- config.toml and the wait for the end in main.rs; and logging.
pub mod Prelude
pub mod Text
pub mod Hex
pub mod TextMap
pub mod Scid
pub mod State
pub mod Node
pub mod Ldk
pub mod Nnc
pub mod Wallet
pub mod Control
pub mod Events
pub mod Server
pub mod Main
pub mod Examples
