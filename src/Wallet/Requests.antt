-- ===== src/Wallet/Requests.antt =====
-- The requests and answers by which src/wallet.rs looks payments up and lists them: the types of
-- the protocol crate as far as the handlers read or fill them.
use dln_node_knots.Prelude.{ℕ, Bool, Option, List}
use dln_node_knots.Text.{Text}
use dln_node_knots.Node.Types.{Json}
use dln_node_knots.Wallet.{Transaction, TransactionType}

pub record LookupInvoiceRequest : Type 0 where
  pub payment_hash : Option Text
  pub invoice : Option Text

pub record LookupPaymentRequest : Type 0 where
  pub transaction_id : Option Text
  pub payment_hash : Option Text
  pub invoice : Option Text
  pub payment_type : Option Text
  pub lookup : Option Json

pub data PaymentState : Type 0 where
  settled failed accepted expired pending : PaymentState

pub record LookupPaymentResponse : Type 0 where
  pub transaction_id : Text
  pub payment_direction : TransactionType
  pub state : PaymentState
  pub payment_type : Text
  pub amount : ℕ
  pub fees_paid : Option ℕ
  pub created_at : ℕ
  pub expires_at : Option ℕ
  pub settled_at : Option ℕ
  -- the four entries of `details`
  pub payment_hash : Text
  pub invoice : Option Text
  pub preimage : Option Text
  pub description : Option Text

pub record ListTransactionsRequest : Type 0 where
  pub from : Option ℕ
  pub until : Option ℕ
  pub limit : Option ℕ
  pub offset : Option ℕ
  pub unpaid : Option Bool
  pub transaction_type : Option TransactionType

pub record ListTransactionsResponse : Type 0 where
  pub transactions : List Transaction
  pub total_count : Option ℕ

-- `nostr_ln`'s, of which this node makes the first three
pub data InvoiceState : Type 0 where
  settled expired pending unlisted : InvoiceState

pub record ListInvoicesRequest : Type 0 where
  pub from : Option ℕ
  pub until : Option ℕ
  pub limit : Option ℕ
  pub offset : Option ℕ
  pub state : Option InvoiceState

pub record InvoiceRecord : Type 0 where
  pub invoice : Text
  pub description : Option Text
  pub payment_hash : Text
  pub amount : ℕ
  pub preimage : Option Text
  pub settled_at : Option ℕ
  pub state : InvoiceState
  pub created_at : ℕ
  pub expires_at : ℕ
