-- ===== src/Applier/Records.antt =====
-- skillsync/applier.go: applyRecord, which decodes a packet's payload and prepares its record. The
-- JSON decoders are a parameter: what json.Unmarshal gives for the header, and what the first
-- Decode of a record gives, with whether the payload ends there.
use text.Mathlib.Text.{◌==◌ as str_eq}
use roost_skill.Common.{
  ℕ, Bool, true, false, if◌then◌else◌, not, ◌&&◌, ◌||◌, Option, none, some, ◌==◌, leb, String,
}
use roost_skill.Common.Int.{ℤ}
use roost_skill.Applier.{Applier, Settings}
use roost_skill.Applier.Consumers.{Error, Transaction, Prepared, ready, failed, prepare}
use roost_skill.Applier.Streams.{
  Packet, Header, Plan, Snapshot, Mutation, Reset, Event, ManifestRecord, StateRecord,
  PresentationRecord, RecordKind, manifest, state_full, state_delta, presentation,
  presentation_reset,
}

abbrev pub Decoder : Type 0 → Type 0
Decoder A = String → Option A × Bool

pub record Codec : Type 0 where
  pub unmarshal_header : String → Option Header
  pub manifest_decoder : Decoder ManifestRecord
  pub state_decoder : Decoder StateRecord
  pub presentation_decoder : Decoder PresentationRecord

abbrev decoded_whole : {A : Type 0} → Option A × Bool → Option A
decoded_whole (none, at_end) = none
decoded_whole (some a, true) = some a
decoded_whole (some a, false) = none

unfoldable pub decode_strict : {A : Type 0} → Decoder A → String → Option A
decode_strict d payload = decoded_whole (d payload)

-- The closure `commitState`.
pub data CommitState : Type 0 where
  keep_nothing : CommitState
  keep_manifest : String → Plan → CommitState
  keep_state_mutation keep_presentation_event : ℤ → ℕ → CommitState

pub record PreparedRecord (S : Type 0) : Type 0 where
  pub commit_state : CommitState
  pub transaction : Option (Transaction S)

abbrev pub is_manifest : RecordKind → Bool
is_manifest manifest = true
is_manifest _ = false

abbrev pub is_known : Option Plan → Bool
is_known none = false
is_known (some plan) = true

module _ {S : Type 0} where
  abbrev pub nothing_to_do : PreparedRecord S
  nothing_to_do = record { commit_state = keep_nothing; transaction = none }

  abbrev pub committing :
      CommitState → Prepared S (Option (Transaction S)) → Prepared S (PreparedRecord S)
  committing c (failed e s) = failed e s
  committing c (ready t s) = ready (record { commit_state = c; transaction = t }) s

  unfoldable pub apply_manifest :
      Settings S → Packet → Option ManifestRecord → S → Prepared S (PreparedRecord S)
  apply_manifest o p none s = failed Error.record_invalid s
  apply_manifest o p (some r) s =
      if str_eq r.plan.presentation_digest ""
        || not (str_eq r.plan.presentation_digest r.header.presentation_digest)
      then failed Error.record_invalid s
      else committing (keep_manifest r.plan.presentation_digest r.plan)
          (prepare o.manifest_consumer p.stream.key r.plan s)

  unfoldable pub apply_state_full :
      Settings S → Packet → Option Snapshot → Option Mutation → S → Prepared S (PreparedRecord S)
  apply_state_full o p (some snapshot) none s =
      if not p.full
      then failed Error.packet_shape s
      else committing (keep_state_mutation p.stream.key snapshot.latest_state_mutation_sequence)
          (prepare o.state_snapshots p.stream.key snapshot s)
  apply_state_full o p _ _ s = failed Error.packet_shape s

  unfoldable pub apply_state_delta :
      Settings S
      → Packet
      → Option Snapshot
      → Option Mutation
      → Applier
      → S
      → Prepared S (PreparedRecord S)
  apply_state_delta o p none (some delta) a s =
      if p.full || delta.sequence == 0 || str_eq delta.kind ""
      then failed Error.packet_shape s
      else if leb delta.sequence (a.state_mutations p.stream.key)
      then ready nothing_to_do s
      else committing (keep_state_mutation p.stream.key delta.sequence)
          (prepare o.state_deltas p.stream.key delta s)
  apply_state_delta o p _ _ a s = failed Error.packet_shape s

  unfoldable pub apply_state :
      Settings S → Packet → Option StateRecord → Applier → S → Prepared S (PreparedRecord S)
  unfolding apply_state_full apply_state_delta
  apply_state o p none a s = failed Error.record_invalid s
  apply_state o p (some r) a s = elim r.header.kind [
    | state_full ↦ apply_state_full o p r.snapshot r.delta s
    | state_delta ↦ apply_state_delta o p r.snapshot r.delta a s
    | _ ↦ failed Error.packet_shape s
  ]

  unfoldable pub apply_presentation_reset :
      Settings S → Packet → Option Event → Option Reset → S → Prepared S (PreparedRecord S)
  apply_presentation_reset o p none (some reset) s =
      if not p.full
      then failed Error.packet_shape s
      else committing (keep_presentation_event p.stream.key reset.latest_presentation_sequence)
          (prepare o.presentation_resets p.stream.key reset s)
  apply_presentation_reset o p _ _ s = failed Error.packet_shape s

  unfoldable pub apply_presentation_event :
      Settings S
      → Packet
      → Option Event
      → Option Reset
      → Applier
      → S
      → Prepared S (PreparedRecord S)
  apply_presentation_event o p (some event) none a s =
      if p.full || event.sequence == 0 || str_eq event.kind ""
      then failed Error.packet_shape s
      else if not (str_eq event.presentation_digest "")
          && not (is_known (a.manifests event.presentation_digest))
      then failed Error.manifest_missing s
      else if leb event.sequence (a.presentation_events p.stream.key)
      then ready nothing_to_do s
      else committing (keep_presentation_event p.stream.key event.sequence)
          (prepare o.presentation_events p.stream.key event s)
  apply_presentation_event o p _ _ a s = failed Error.packet_shape s

  unfoldable pub apply_presentation :
      Settings S → Packet → Option PresentationRecord → Applier → S → Prepared S (PreparedRecord S)
  unfolding apply_presentation_reset apply_presentation_event
  apply_presentation o p none a s = failed Error.record_invalid s
  apply_presentation o p (some r) a s = elim r.header.kind [
    | presentation_reset ↦ apply_presentation_reset o p r.event r.reset s
    | presentation ↦ apply_presentation_event o p r.event r.reset a s
    | _ ↦ failed Error.packet_shape s
  ]

  unfoldable pub apply_by_topic :
      Settings S → Codec → Packet → Header → Applier → S → Prepared S (PreparedRecord S)
  unfolding apply_manifest apply_state apply_presentation decode_strict
  apply_by_topic o codec p h a s =
      if str_eq p.stream.topic "roost.skill.manifest"
      then (if not p.full || not (is_manifest h.kind)
          then failed Error.packet_shape s
          else apply_manifest o p (decode_strict (λ d. codec.manifest_decoder d) p.payload) s)
      else if str_eq p.stream.topic "roost.skill.state"
      then apply_state o p (decode_strict (λ d. codec.state_decoder d) p.payload) a s
      else if str_eq p.stream.topic "roost.skill.presentation"
      then apply_presentation o p (decode_strict (λ d. codec.presentation_decoder d) p.payload) a s
      else failed Error.topic_unsupported s

  unfoldable pub apply_headed :
      Settings S → Codec → Packet → Option Header → Applier → S → Prepared S (PreparedRecord S)
  unfolding apply_by_topic
  apply_headed o codec p none a s = failed Error.record_invalid s
  apply_headed o codec p (some h) a s =
      if not (h.schema_version == p.schema_version)
      then failed Error.schema_mismatch s
      else apply_by_topic o codec p h a s

  unfoldable pub apply_record :
      Settings S → Codec → Packet → Applier → S → Prepared S (PreparedRecord S)
  unfolding apply_headed
  apply_record o codec p a s = apply_headed o codec p (codec.unmarshal_header p.payload) a s
