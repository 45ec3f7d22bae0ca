-- ===== src/Applier/Application.antt =====
-- skillsync/applier.go: Apply, Sequence and Epoch.
use roost_skill.Common.{ℕ, if◌then◌else◌, not, List, Option, none, some, ◌==◌, filter, String}
use text.Mathlib.Text.{◌==◌ as str_eq}
use roost_skill.Common.Int.{ℤ, eqb_ℤ}
use roost_skill.Applier.{
  Applier, Settings, Admission, admitted, already_applied, rejected, admit, new_state,
}
use roost_skill.Applier.Consumers.{Error, Prepared, ready, failed, commit_or_roll_back}
use roost_skill.Applier.Records.{
  Codec, CommitState, keep_nothing, keep_manifest, keep_state_mutation, keep_presentation_event,
  PreparedRecord, apply_record,
}
use roost_skill.Applier.Streams.{Stream, equal_streams, Packet, StreamCursor, Plan}

-- A write to a map.
unfoldable pub set_cursor : Stream → StreamCursor → (Stream → StreamCursor) → Stream → StreamCursor
set_cursor s c m t = if equal_streams s t then c else m t

unfoldable pub set_number : ℤ → ℕ → (ℤ → ℕ) → ℤ → ℕ
set_number k n m j = if eqb_ℤ k j then n else m j

unfoldable pub set_plan : String → Plan → (String → Option Plan) → String → Option Plan
set_plan d plan m e = if str_eq d e then some plan else m e

unfoldable pub run_commit : CommitState → Applier → Applier
run_commit keep_nothing a = a
run_commit (keep_manifest d plan) a = record a { manifests = set_plan d plan a.manifests }
run_commit (keep_state_mutation k n) a = record a {
  state_mutations = set_number k n a.state_mutations;
}
run_commit (keep_presentation_event k n) a = record a {
  presentation_events = set_number k n a.presentation_events;
}

unfoldable pub delete_stream : Stream → List Stream → List Stream
delete_stream s ts = filter (λ t. not (equal_streams s t)) ts

unfoldable pub enter_epoch : Packet → Applier → Applier
enter_epoch p a =
    if not (a.pending_epoch == p.epoch)
    then a
    else if a.epoch == p.epoch
    then a
    else record new_state {
      epoch = p.epoch;
      pending_epoch = a.pending_epoch;
      inflight = a.inflight;
    }

unfoldable pub clear_pending : Packet → Applier → Applier
clear_pending p a = if a.pending_epoch == p.epoch then record a { pending_epoch = 0 } else a

unfoldable pub advance : Packet → Applier → Applier
advance p a = record a {
  sequences = set_cursor p.stream (record { epoch = p.epoch; sequence = p.sequence }) a.sequences;
}

-- The locked end of Apply, with the commit of a record that did not fail.
unfoldable pub finish : Packet → Option CommitState → Applier → Applier
unfolding enter_epoch clear_pending advance delete_stream
finish p none a = clear_pending p (record a { inflight = delete_stream p.stream a.inflight })
finish p (some c) a = clear_pending p (
    advance p
      (run_commit c (enter_epoch p (record a { inflight = delete_stream p.stream a.inflight }))))

-- ApplyResult: applied, a duplicate, or an error.
pub data Outcome : Type 0 where
  applied duplicate : (sequence epoch : ℕ) → Outcome
  refused : Error → Outcome

module _ {S : Type 0} where
  abbrev pub after_commit :
      Packet → CommitState → Applier → Option Error × S → Outcome × Applier × S
  after_commit p c a (none, s) = (applied p.sequence p.epoch, finish p (some c) a, s)
  after_commit p c a (some e, s) = (refused e, finish p none a, s)

  unfoldable pub end_apply :
      Packet → Applier → Prepared S (PreparedRecord S) → Outcome × Applier × S
  unfolding commit_or_roll_back
  end_apply p a (failed e s) = (refused e, finish p none a, s)
  end_apply p a (ready r s) = after_commit p r.commit_state a (commit_or_roll_back r.transaction s)

  unfoldable pub apply_admitted :
      Settings S → Codec → Admission × Applier → S → Outcome × Applier × S
  unfolding apply_record end_apply
  apply_admitted o codec (rejected e, a) s = (refused e, a, s)
  apply_admitted o codec (already_applied q e, a) s = (duplicate q e, a, s)
  apply_admitted o codec (admitted p, a) s = end_apply p a (apply_record o codec p a s)

  unfoldable pub apply : Settings S → Codec → Packet → Applier → S → Outcome × Applier × S
  unfolding admit apply_admitted
  apply o codec p a s = apply_admitted o codec (admit o p a) s

unfoldable pub sequence : Stream → Applier → ℕ
sequence s a = let cursor = a.sequences s in cursor.sequence
