-- ===== src/Server/Handlers/Payments.antt =====
-- The effect on the tables of the handlers of src/wallet.rs that pay, invoice, quote and look up.
use dln_node_knots.Prelude.{ℕ, Option, none, some, Option-cases, inl, inr, head?}
use dln_node_knots.Text.{Text}
use dln_node_knots.Nnc.{}
use dln_node_knots.Node.Types
use dln_node_knots.Wallet.{Wallet}
use dln_node_knots.Wallet.Core
use dln_node_knots.Wallet.Invoices
use dln_node_knots.Wallet.Lookup
use dln_node_knots.Wallet.Uri
use dln_node_knots.Wallet.Quote
use dln_node_knots.Server.Methods.{method_rules}
use dln_node_knots.Server.Runs.{Runs}

module _ {S : Type 0} (wallet : Wallet S) where
  pub get_info-Runs : Runs (Core.get_info wallet)
  unfolding Core.get_info
  get_info-Runs = search method_rules depth 8

  pub get_balance-Runs : Runs (Core.get_balance wallet)
  unfolding Core.get_balance
  get_balance-Runs = search method_rules depth 8

  pub pay_invoice-Runs : (r : Core.PayInvoiceRequest) → Runs (Core.pay_invoice wallet r)
  unfolding Core.pay_invoice
  pay_invoice-Runs r = search method_rules depth 8

  pub pay_keysend-Runs : (r : Core.PayKeysendRequest) → Runs (Core.pay_keysend wallet r)
  unfolding Core.pay_keysend
  pay_keysend-Runs r = search method_rules depth 8

  pub make_invoice-Runs : (r : Invoices.MakeInvoiceRequest) → Runs (Invoices.make_invoice wallet r)
  unfolding Invoices.make_invoice
  make_invoice-Runs r = search method_rules depth 8

  pub make_hold_invoice-Runs :
      (r : Invoices.MakeHoldInvoiceRequest) → Runs (Invoices.make_hold_invoice wallet r)
  unfolding Invoices.make_hold_invoice
  make_hold_invoice-Runs r = search method_rules depth 8

  pub settle_hold_invoice-Runs : (r : Text) → Runs (Invoices.settle_hold_invoice wallet r)
  unfolding Invoices.settle_hold_invoice
  settle_hold_invoice-Runs r = search method_rules depth 8

  pub cancel_hold_invoice-Runs : (r : Text) → Runs (Invoices.cancel_hold_invoice wallet r)
  unfolding Invoices.cancel_hold_invoice
  cancel_hold_invoice-Runs r = search method_rules depth 8

  lookup_by-Runs :
      (what missing : Text) (hash invoice : Option Text)
      → Runs (Lookup.lookup_by wallet what missing hash invoice)
  unfolding Lookup.lookup_by
  lookup_by-Runs what missing (some hash) invoice = search method_rules
  lookup_by-Runs what missing none (some invoice) = search method_rules
  lookup_by-Runs what missing none none = search method_rules

  pub lookup_invoice-Runs :
      (r : Lookup.LookupInvoiceRequest) → Runs (Lookup.lookup_invoice wallet r)
  unfolding Lookup.lookup_invoice
  lookup_invoice-Runs r = search (method_rules, lookup_by-Runs) depth 8

  pub lookup_payment-Runs :
      (r : Lookup.LookupPaymentRequest) → Runs (Lookup.lookup_payment wallet r)
  unfolding Lookup.lookup_payment
  lookup_payment-Runs r = search (method_rules, lookup_by-Runs) depth 8

  pub list_transactions-Runs :
      (r : Lookup.ListTransactionsRequest) → Runs (Lookup.list_transactions wallet r)
  unfolding Lookup.list_transactions
  list_transactions-Runs r = search method_rules depth 8

  pub list_invoices-Runs : (r : Lookup.ListInvoicesRequest) → Runs (Lookup.list_invoices wallet r)
  unfolding Lookup.list_invoices
  list_invoices-Runs r = search method_rules depth 8

  pub quote_payment-Runs : (r : Quote.QuotePaymentRequest) → Runs (Quote.quote_payment wallet r)
  unfolding Quote.quote_payment
  quote_payment-Runs r = search method_rules depth 8

  paid-Runs :
      (kind : Text) (amount : ℕ) (preimage txid : Option Text) (fees : ℕ)
      → Runs (Uri.paid wallet kind amount preimage txid fees)
  unfolding Uri.paid
  paid-Runs kind amount preimage txid fees = search method_rules depth 8

  pay_onchain_part-Runs :
      (uri : Types.Uri) (amount : Option ℕ) → Runs (Uri.pay_onchain_part wallet uri amount)
  unfolding Uri.pay_onchain_part
  pay_onchain_part-Runs uri amount = search (method_rules, paid-Runs) depth 8

  pay_uri-Runs :
      (uri : Types.Uri) (amount : Option ℕ) (memo : Option Text)
      → Runs (Uri.pay_uri wallet uri amount memo)
  unfolding Uri.pay_uri
  pay_uri-Runs uri amount memo = elim (Option-cases (head? uri.lightning)) [
    | inr (invoice, e) ↦ rw (e, Uri.pay_uri) (search (method_rules, paid-Runs) depth 8)
    | inl e ↦ elim (Option-cases (head? uri.lno)) [
      | inr (offer, d) ↦ rw (e, d, Uri.pay_uri) (search (method_rules, paid-Runs) depth 8)
      | inl d ↦ rw (e, d, Uri.pay_uri) (search (method_rules, pay_onchain_part-Runs) depth 8)
    ]
  ]

  pub pay-Runs : (r : Uri.PayRequest) → Runs (Uri.pay wallet r)
  unfolding Uri.pay
  pay-Runs r = search (method_rules, pay_uri-Runs) depth 8
