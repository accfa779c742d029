-- ===== src/Ldk/Balance.antt =====
-- `get_balance` of src/lightning/ldk_service.rs: sats from the node, checked into u64 msats.
use dln_node_knots.Prelude.{
  ℕ, ◌+◌, ◌*◌, Option, none, some, ◌≡◌, arith, if◌then◌else◌, ltb, u64_size, wrap64,
}
use dln_node_knots.Prelude.Outcome.{Outcome, ok, err, ok_or}
use dln_node_knots.Prelude.Act.{Act, lift, pure, ◌>>=◌}
use dln_node_knots.Ldk.{LdkService, World, call}
use dln_node_knots.Ldk.Errors.{LdkServiceError, balance_overflow}

pub record LdkBalance : Type 0 where
  pub total_msat : ℕ
  pub lightning_msat : ℕ
  pub onchain_msat : ℕ

-- `u64::checked_mul` and `u64::checked_add`
abbrev pub checked : ℕ → Option ℕ
checked n = if ltb n u64_size then some n else none

module _ {S : Type 0} (ldk : LdkService S) where
  unfoldable pub get_balance : Act (World S) LdkServiceError LdkBalance
  get_balance = do
    balances ← call ldk.node.list_balances
    onchain_msat ← lift (
        ok_or (checked (balances.spendable_onchain_balance_sats * 1000))
          (balance_overflow balances.spendable_onchain_balance_sats))
    lightning_msat ← lift (
        ok_or (checked (balances.total_lightning_balance_sats * 1000))
          (balance_overflow balances.total_lightning_balance_sats))
    total_msat ← lift (
        ok_or (checked (onchain_msat + lightning_msat)) (
          balance_overflow (
            wrap64
              (balances.spendable_onchain_balance_sats + balances.total_lightning_balance_sats))))
    pure (record {
      total_msat = total_msat;
      lightning_msat = lightning_msat;
      onchain_msat = onchain_msat;
    })

  unfoldable pub get_balance_msat : Act (World S) LdkServiceError ℕ
  get_balance_msat = do balance ← get_balance; pure balance.total_msat

-- The exact balance, or the amount that does not fit: the first of the on-chain sats, the
-- Lightning sats and their true sum which exceeds u64 as msats.
abbrev pub exact_balance : ℕ → ℕ → Outcome LdkServiceError LdkBalance
exact_balance onchain lightning =
    if ltb ((onchain + lightning) * 1000) u64_size
    then ok (record {
      total_msat = (onchain + lightning) * 1000;
      lightning_msat = lightning * 1000;
      onchain_msat = onchain * 1000;
    })
    else err (
        balance_overflow (
          if ltb (onchain * 1000) u64_size
          then if ltb (lightning * 1000) u64_size then onchain + lightning else lightning
          else onchain))

-- On every balance that the node reports, `get_balance` returns a thousand times the sats, all
-- three figures exact, or the overflow error; the sum in that error does not itself wrap around.
pub get_balance_exact :
    {S : Type 0} (ldk : LdkService S) (w : World S)
    → (get_balance ldk w).0
      ≡ exact_balance
          (ldk.node.list_balances w.node).0.spendable_onchain_balance_sats
          (ldk.node.list_balances w.node).0.total_lightning_balance_sats
unfolding get_balance
get_balance_exact ldk w = ground arith
