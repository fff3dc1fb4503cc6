-- ===== src/Conn/TxStatus.antt =====
-- src/queryable/transaction.rs: the transaction status of a connection.
use mathlib.Core.Bool.{Bool, true, false}

pub data TxStatus : Type 0 where
  in_transaction requires_rollback none : TxStatus

-- `status != TxStatus::None`.
unfoldable pub is_open : TxStatus → Bool
is_open none = false
is_open _ = true

-- `status == TxStatus::InTransaction`.
unfoldable pub is_in_transaction : TxStatus → Bool
is_in_transaction in_transaction = true
is_in_transaction _ = false

-- `status == TxStatus::RequiresRollback`.
unfoldable pub is_abandoned : TxStatus → Bool
is_abandoned requires_rollback = true
is_abandoned _ = false
