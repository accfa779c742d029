-- ===== src/Wallet/Offers.antt =====
-- BOLT12 offers in src/wallet.rs.
pub mod Disable
use dln_node_knots.Prelude.{
  ℕ, ◌-◌, Bool, true, false, not, ◌&&◌, ◌||◌, Option, none, some, List, [], ◌∷◌, map, and_then,
  unwrap_or, is_some, length, ltb, ◌==◌, if◌then◌else◌, u32_size,
}
use dln_node_knots.Prelude.Select.{select}
use dln_node_knots.Prelude.Outcome.{Outcome, ok, err, panic, out_of_fuel, ok_or, to_option}
use dln_node_knots.Prelude.Act.{Act, pure, fail, lift, ◌>>=◌, ◌>>◌}
use dln_node_knots.Text.{Bytes, Text, codes}
use dln_node_knots.Node.{Library}
use dln_node_knots.Node.Types.{Offer}
use dln_node_knots.State.Offers.{
  OfferRecord, insert_offer, find_by_offer_id, list_offers as stored_offers,
  disable_offer as disable_stored,
}
use dln_node_knots.Ldk.{World}
use dln_node_knots.Ldk.Send
use dln_node_knots.Nnc.{
  NncError, nnc_error, or_ldk_err, bad_request, not_found, internal, payment_failed,
}
use dln_node_knots.Wallet.{Wallet, now}

pub record MakeOfferRequest : Type 0 where
  pub amount : Option ℕ
  pub description : Option Text
  pub issuer : Option Text
  pub single_use : Option Bool
  pub expires_at : Option ℕ

pub record MakeOfferResponse : Type 0 where
  pub offer_id : Text
  pub offer : Text
  pub amount : Option ℕ
  pub description : Option Text
  pub issuer : Option Text
  pub single_use : Bool
  pub created_at : ℕ
  pub expires_at : Option ℕ

pub record PayOfferRequest : Type 0 where
  pub offer : Text
  pub amount : Option ℕ
  pub payer_note : Option Text

pub record PayOfferResponse : Type 0 where
  pub transaction_id : Text
  pub preimage : Text
  pub fees_paid : Option ℕ

pub record ListedOffer : Type 0 where
  pub offer_id : Text
  pub offer : Text
  pub description : Option Text
  pub issuer : Option Text
  pub amount : Option ℕ
  pub active : Bool
  pub single_use : Bool
  pub num_payments_received : ℕ
  pub total_received : ℕ
  pub created_at : ℕ
  pub expires_at : Option ℕ

-- `u32::try_from(n).ok()`
abbrev pub to_u32 : ℕ → Option ℕ
to_u32 n = if ltb n u32_size then some n else none

-- `vec![0; n]`, for `[0u8; 32]`
abbrev pub zeros : ℕ → Bytes
zeros ℕ.zero = []
zeros (ℕ.suc n) = 0 ∷ zeros n

abbrev id_or_zeros : Outcome Text Offer → Bytes
id_or_zeros (ok o) = o.id
id_or_zeros (err e) = zeros 32
id_or_zeros panic = zeros 32
id_or_zeros out_of_fuel = zeros 32

-- `Offer::from_str(&offer).map(|o| o.id().0).unwrap_or([0u8; 32])`
unfoldable pub offer_id_of : Library → Text → Bytes
offer_id_of lib offer = id_or_zeros (lib.parse_offer offer)

unfoldable pub listed_offer : Library → OfferRecord → ListedOffer
listed_offer lib o = record {
  offer_id = lib.hex_encode o.offer_id;
  offer = o.offer;
  description = some o.description;
  issuer = none;
  amount = some o.amount_msat;
  active = o.active;
  single_use = false;
  num_payments_received = o.num_payments_received;
  total_received = o.total_received_msat;
  created_at = 0;
  expires_at = none;
}

-- `hex::decode(…).ok().and_then(|b| b.try_into().ok())`
unfoldable pub parse_offer_id : Library → Text → Option Bytes
parse_offer_id lib text =
    and_then (to_option (lib.hex_decode text))
      (λ (b : Bytes). if length b == 32 then some b else none)

module _ {S E : Type 0} where
  -- `offer_store::insert_offer(…)`
  abbrev pub store_offer : Text → Text → ℕ → Bytes → Act (World S) E (Unit {0})
  store_offer offer description amount_msat offer_id w =
      pure tt (record w { offers = insert_offer offer description amount_msat offer_id w.offers })

  -- `offer_store::disable_offer(&offer)`, its answer left
  abbrev pub deactivate_offer : Text → Act (World S) E (Unit {0})
  deactivate_offer offer w = pure tt (record w { offers = (disable_stored offer w.offers).1 })

module _ {S : Type 0} (wallet : Wallet S) where
  -- The seconds from now, none where they exceed u32; the clock is read only for an expiry, and
  -- `saturating_sub` is the subtraction of ℕ.
  unfoldable pub expiry_in : Option ℕ → Act (World S) NncError (Option ℕ)
  expiry_in none = pure none
  expiry_in (some e) = do time ← now wallet.ldk; pure (to_u32 (e - time))

  unfoldable pub make_offer : MakeOfferRequest → Act (World S) NncError MakeOfferResponse
  make_offer r =
      if is_some r.amount && not (is_some r.description)
      then fail (nnc_error bad_request (codes "an amount-bearing offer requires a description"))
      else do
        expiry ← expiry_in r.expires_at
        offer ← or_ldk_err (codes "make_offer") internal (
            Send.make_offer wallet.ldk (unwrap_or r.amount 0)
              (unwrap_or r.description (codes "offer")) expiry)
        store_offer offer (unwrap_or r.description (codes "offer")) (unwrap_or r.amount 0)
            (offer_id_of wallet.ldk.lib offer)
        created_at ← now wallet.ldk
        pure (record {
          offer_id = wallet.ldk.lib.hex_encode (offer_id_of wallet.ldk.lib offer);
          offer = offer;
          amount = r.amount;
          description = r.description;
          issuer = r.issuer;
          single_use = unwrap_or r.single_use false;
          created_at = created_at;
          expires_at = r.expires_at;
        })

  unfoldable pub pay_offer : PayOfferRequest → Act (World S) NncError PayOfferResponse
  pay_offer r = do
    p ←
        or_ldk_err (codes "pay_offer") payment_failed
          (Send.pay_offer wallet.ldk r.offer r.amount r.payer_note)
    pure (record {
      transaction_id = p.preimage;
      preimage = p.preimage;
      fees_paid = p.fees_paid_msat;
    })

  unfoldable pub list_offers : Option Bool → Act (World S) NncError (List ListedOffer)
  list_offers active_only w =
      pure
        (map (listed_offer wallet.ldk.lib) (
          select (λ (o : OfferRecord). not (unwrap_or active_only false) || o.active)
            (stored_offers w.offers)))
        w

  unfoldable pub disable_offer : Text → Act (World S) NncError (Unit {0})
  disable_offer offer_id w =
      (do
        id ← lift (
            ok_or (parse_offer_id wallet.ldk.lib offer_id)
              (nnc_error bad_request (codes "offer_id must be 32 bytes, hex")))
        offer ←
            lift
              (ok_or (find_by_offer_id id w.offers) (nnc_error not_found (codes "no such offer")))
        deactivate_offer offer)
        w
