-- ===== src/Applier/Consumers.antt =====
-- skillsync/applier.go: the consumers of applied records, and the transactions that they prepare. A
-- consumer keeps a state `S` of its own, which its calls change.
use roost_skill.Common.{ℕ, Option, none, some}
use roost_skill.Common.Int.{ℤ}

pub data Error : Type 0 where
  schema_version_required observer_mismatch schema_mismatch epoch_mismatch : Error
  sequence_gap packet_shape apply_in_progress transaction_required : Error
  schema_migrator_required record_invalid manifest_missing topic_unsupported : Error
  callback_failed : ℕ → Error

-- ApplyTransaction: an error of Commit, or none, with the state that the call leaves.
pub record Transaction (S : Type 0) : Type 0 where
  pub commit : S → Option Error × S
  pub rollback : S → S

pub data Prepared (S : Type 0) (A : Type 0) : Type 0 where
  ready : A → S → Prepared S A
  failed : Error → S → Prepared S A

-- A nil consumer, one that applies a record at once, or one that prepares a transaction (which may
-- be nil).
pub data Consumer (S : Type 0) (A : Type 0) : Type 0 where
  absent : Consumer S A
  direct : (ℤ → A → S → Option Error × S) → Consumer S A
  transactional : (ℤ → A → S → Prepared S (Option (Transaction S))) → Consumer S A

module _ {S : Type 0} where
  unfoldable pub require_transaction :
      Prepared S (Option (Transaction S)) → Prepared S (Option (Transaction S))
  require_transaction (failed e s) = failed e s
  require_transaction (ready none s) = failed transaction_required s
  require_transaction (ready (some t) s) = ready (some t) s

  abbrev applied_at_once : Option Error × S → Prepared S (Option (Transaction S))
  applied_at_once (none, s) = ready none s
  applied_at_once (some e, s) = failed e s

  unfoldable pub prepare :
      {A : Type 0} → Consumer S A → ℤ → A → S → Prepared S (Option (Transaction S))
  unfolding require_transaction
  prepare absent key value s = ready none s
  prepare (direct apply) key value s = applied_at_once (apply key value s)
  prepare (transactional plan) key value s = require_transaction (plan key value s)

  -- Commit, and Rollback where it fails.
  abbrev settle : (S → S) → Option Error × S → Option Error × S
  settle rollback (none, s) = (none, s)
  settle rollback (some e, s) = (some e, rollback s)

  unfoldable pub commit_or_roll_back : Option (Transaction S) → S → Option Error × S
  commit_or_roll_back none s = (none, s)
  commit_or_roll_back (some t) s = settle (λ s. t.rollback s) (t.commit s)
