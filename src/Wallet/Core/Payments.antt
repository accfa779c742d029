-- ===== src/Wallet/Core/Payments.antt =====
-- What a payment or a balance that src/wallet.rs reports stands for.
use native.Mathlib.Nat.{mul-div_cancel}
use dln_node_knots.Prelude.{
  ℕ, ◌+◌, ◌*◌, ◌/◌, Option, none, some, ◌≡◌, ◌≢◌, sym, ◌∙◌, subst, arith, inl, inr, Bool-cases, ltb,
  u64_size,
}
use dln_node_knots.Prelude.Outcome.{Outcome-cases, ok}
use dln_node_knots.Text.{Bytes, Text, trim, is_empty}
use dln_node_knots.Node.Types.{Invoice}
use dln_node_knots.Ldk.{LdkService, World}
use dln_node_knots.Ldk.Balance
use dln_node_knots.Ldk.Balance.{LdkBalance, get_balance_exact, exact_balance}
use dln_node_knots.Ldk.Send
use dln_node_knots.Ldk.Send.{send_invoice}
use dln_node_knots.Ldk.Wait.{LdkPaymentResult}
use dln_node_knots.Ldk.Wait.Sound.{Polled, wait_start, wait_for_outbound_payment-Polled}
use dln_node_knots.Wallet.{Wallet}
use dln_node_knots.Wallet.Core.{
  PayInvoiceRequest, PaidResponse, GetBalanceResponse, pay_invoice, get_balance, is_zero_amount,
}

-- The node has taken the invoice: with the amount that is given, or with its own if none is.
abbrev pub IsTaken : {S : Type 0} → LdkService S → Invoice → Option ℕ → S → Bytes → S → Type 0
IsTaken ldk invoice (some amount) s id t = ldk.node.send_using_amount invoice amount s ≡ (ok id, t)
IsTaken ldk invoice none s id t = ldk.node.send invoice s ≡ (ok id, t)

module _ {S : Type 0} (ldk : LdkService S) where
  -- The payment that a success of `pay_invoice` stands for: of the invoice that was parsed, taken
  -- by the node with the amount of the caller, and, in the last listing of the wait that follows,
  -- sent and succeeded.
  pub record Paid (text : Text) (amount : Option ℕ) (w w' : World S) (p : LdkPaymentResult)
      : Type 0 where
    pub invoice : Invoice
    pub parsed : ldk.lib.parse_invoice text ≡ ok invoice
    pub id : Bytes
    pub sent : S
    pub taken : IsTaken ldk invoice amount w.node id sent
    pub polled : Polled ldk id (record w { node = wait_start ldk sent }) w' p

  send_invoice-IsTaken :
      (invoice : Invoice) (amount : Option ℕ) (w v : World S) (id : Bytes)
      → send_invoice ldk invoice amount w ≡ (ok id, v)
      → IsTaken ldk invoice amount w.node id v.node × (v ≡ record w { node = v.node })
  unfolding send_invoice
  send_invoice-IsTaken invoice none w v id h =
      elim (Outcome-cases (ldk.node.send invoice w.node).0) [
        | inl e ↦ absurd (ground (arith, e, h))
        | inr (i, e) ↦ (ground (arith, e, h), ground (arith, e, h))
      ]
  send_invoice-IsTaken invoice (some amount) w v id h =
      elim (Outcome-cases (ldk.node.send_using_amount invoice amount w.node).0) [
        | inl e ↦ absurd (ground (arith, e, h))
        | inr (i, e) ↦ (ground (arith, e, h), ground (arith, e, h))
      ]

  pub ldk_pay_invoice-Paid :
      (text : Text) (amount : Option ℕ) (w w' : World S) (p : LdkPaymentResult)
      → Send.pay_invoice ldk text amount w ≡ (ok p, w')
      → Paid text amount w w' p
  unfolding Send.pay_invoice
  ldk_pay_invoice-Paid text amount w w' p h = elim (Outcome-cases (ldk.lib.parse_invoice text)) [
    | inl bad ↦ absurd (ground arith)
    | inr (invoice, parsed) ↦
        let v = (send_invoice ldk invoice amount w).1 in
        elim (Outcome-cases (send_invoice ldk invoice amount w).0) [
          | inl refused ↦ absurd (ground arith)
          | inr (id, sent) ↦
              let (taken, kept) = send_invoice-IsTaken invoice amount w v id (ground arith) in
              let polled = wait_for_outbound_payment-Polled ldk id v w' p (ground arith) in
              record {
                invoice = invoice;
                parsed = parsed;
                id = id;
                sent = v.node;
                taken = taken;
                polled =
                    subst
                      (λ (u : World S).
                        Polled ldk id (record u { node = wait_start ldk v.node }) w' p)
                      kept polled;
              }
        ]
  ]

exact_figures :
    (onchain lightning : ℕ) (b : LdkBalance)
    → exact_balance onchain lightning ≡ ok b
    → (b.onchain_msat / 1_000 ≡ onchain)
      × (b.lightning_msat ≡ lightning * 1_000)
      × (b.total_msat ≡ (onchain + lightning) * 1_000)
exact_figures onchain lightning b h =
    elim (Bool-cases (ltb ((onchain + lightning) * 1000) u64_size)) [
      | inl fits ↦ ground (arith, mul-div_cancel onchain)
      | inr over ↦ absurd (ground arith)
    ]

module _ {S : Type 0} (wallet : Wallet S) where
  -- When the wallet reports an invoice as paid, the amount of the request was not zero, the trimmed
  -- text of the request is an invoice, the node has taken that invoice with that amount (or its own
  -- amount if none was given), and in the last listing of the wait that follows this payment is sent
  -- and succeeded, with the preimage and the fee of the response; the tables are unchanged.
  pub pay_invoice-Paid :
      (r : PayInvoiceRequest) (w w' : World S) (p : PaidResponse)
      → pay_invoice wallet r w ≡ (ok p, w')
      → (r.amount ≢ some 0)
        × Paid wallet.ldk
            (trim r.invoice)
            r.amount
            w
            w'
            (record { preimage = p.preimage; fees_paid_msat = p.fees_paid })
  unfolding pay_invoice
  pay_invoice-Paid r w w' p h = elim (Bool-cases (is_zero_amount r.amount)) [
    | inl zero ↦ absurd (ground arith)
    | inr positive ↦ elim (Bool-cases (is_empty (trim r.invoice))) [
      | inl missing ↦ absurd (ground arith)
      | inr given ↦
          let (q, v) = Send.pay_invoice wallet.ldk (trim r.invoice) r.amount w in
          elim (Outcome-cases q) [
            | inl failed ↦ absurd (ground arith)
            | inr (paid, e) ↦ (
              λ none_to_pay. absurd (ground arith),
              subst (Paid wallet.ldk (trim r.invoice) r.amount w w') (ground arith) (
                  ldk_pay_invoice-Paid wallet.ldk (trim r.invoice) r.amount w w' paid
                    (ground arith)),
            )
          ]
    ]
  ]

  -- When the wallet reports a balance, the Lightning figure is a thousand times the sats that the
  -- node lists after the sync, the on-chain figure is its sats unchanged, and the total is a
  -- thousand times both together, with no overflow.
  pub get_balance-exact :
      (w w' : World S) (b : GetBalanceResponse)
      → get_balance wallet w ≡ (ok b, w')
      → (synced : World S) × (Send.sync_wallets wallet.ldk w ≡ (ok tt, synced))
        × (b.onchain_balance_sats
            ≡ some (wallet.ldk.node.list_balances synced.node).0.spendable_onchain_balance_sats)
        × (b.lightning_balance
            ≡ some (
                (wallet.ldk.node.list_balances synced.node).0.total_lightning_balance_sats * 1_000))
        × (b.balance
            ≡ ((wallet.ldk.node.list_balances synced.node).0.spendable_onchain_balance_sats
                + (wallet.ldk.node.list_balances synced.node).0.total_lightning_balance_sats)
              * 1_000)
  unfolding get_balance
  get_balance-exact w w' b h =
      let (r, synced) = Send.sync_wallets wallet.ldk w in
      elim (Outcome-cases r) [
        | inl refused ↦ absurd (ground arith)
        | inr (u, done) ↦
            let balances = (wallet.ldk.node.list_balances synced.node).0 in
            let onchain = balances.spendable_onchain_balance_sats in
            let lightning = balances.total_lightning_balance_sats in
            let (q, v) = Balance.get_balance wallet.ldk synced in
            elim (Outcome-cases q) [
              | inl overflow ↦ absurd (ground arith)
              | inr (figures, e) ↦
                  let (sats, msats, total) =
                    exact_figures onchain lightning figures
                      (sym (get_balance_exact wallet.ldk synced) ∙ e) in
                  (synced, ground arith, ground arith, ground arith, ground arith)
            ]
      ]
