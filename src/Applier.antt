-- ===== src/Applier.antt =====
-- skillsync/applier.go: a client's side of the stream, which admits and applies its packets.
-- The applier's own state is apart from its settings, which NewApplier fixes. The lock is held from
-- the admission's first read to its last write, and again while an application ends; between them
-- the consumers run.
pub mod Streams
pub mod Consumers
pub mod Records
pub mod Application
pub mod Entrance
pub mod Cursors
pub mod Outcomes
pub mod Order
pub mod Repetition
pub mod Wedge
pub mod Interleaving
mod Examples
use text.Mathlib.Text.{◌==◌ as str_eq}
use roost_skill.Common.{
  ℕ, ◌+◌, ◌%◌, ◌^◌, Bool, true, false, if◌then◌else◌, not, ◌&&◌, ◌||◌, List, [], ◌∷◌, Option, none,
  some, ◌⊎◌, inl, inr, ◌==◌, ltb, leb, any, length, filter, String,
}
use roost_skill.Common.Int.{ℤ, eqb_ℤ}
use Streams.{
  Stream, equal_streams, Packet, StreamCursor, no_cursor, Plan, Snapshot, Mutation, Reset, Event,
}
use Consumers.{Error, Consumer}

pub record SchemaRange : Type 0 where
  pub min : ℕ
  pub max : ℕ

unfoldable pub contains : SchemaRange → ℕ → Bool
contains r version = not (r.min == 0) && leb r.min version && leb version r.max

-- A migrator gives an error or the new payload.
abbrev pub Migrator : Type 0
Migrator = Packet → ℕ → Error ⊎ String

pub record Settings (S : Type 0) : Type 0 where
  pub observer : ℕ
  pub schema_version : ℕ
  pub supported : SchemaRange
  pub migrator : Option Migrator
  pub manifest_consumer : Consumer S Plan
  pub state_snapshots : Consumer S Snapshot
  pub state_deltas : Consumer S Mutation
  pub presentation_resets : Consumer S Reset
  pub presentation_events : Consumer S Event

pub record Applier : Type 0 where
  pub epoch : ℕ
  pub pending_epoch : ℕ
  pub sequences : Stream → StreamCursor
  pub inflight : List Stream
  pub state_mutations : ℤ → ℕ
  pub presentation_events : ℤ → ℕ
  pub manifests : String → Option Plan

abbrev pub new_state : Applier
new_state = record {
  epoch = 0;
  pending_epoch = 0;
  sequences = λ s. no_cursor;
  inflight = [];
  state_mutations = λ k. 0;
  presentation_events = λ k. 0;
  manifests = λ d. none;
}

module _ {S : Type 0} where
  abbrev with_supported : Settings S → Settings S
  with_supported o =
      if o.supported.min == 0
      then record o { supported = record { min = o.schema_version; max = o.schema_version } }
      else o

  unfoldable pub new_applier : Settings S → Error ⊎ (Settings S × Applier)
  unfolding contains
  new_applier o =
      if o.schema_version == 0
      then inl Error.schema_version_required
      else if not (contains (with_supported o).supported o.schema_version)
      then inl Error.schema_mismatch
      else inr (with_supported o, new_state)

pub data Admission : Type 0 where
  admitted : Packet → Admission
  already_applied : (sequence epoch : ℕ) → Admission
  rejected : Error → Admission

abbrev migrated : Packet → ℕ → Error ⊎ String → Error ⊎ Packet
migrated p version (inl e) = inl e
migrated p version (inr payload) = inr (record p { payload = payload; schema_version = version })

abbrev migrate : Option Migrator → Packet → ℕ → Error ⊎ Packet
migrate none p version = inl Error.schema_migrator_required
migrate (some m) p version = migrated p version (m p version)

abbrev named : Error ⊎ Packet → Error ⊎ Packet
named (inl e) = inl e
named (inr p) =
    if str_eq p.stream.topic "" || p.sequence == 0 then inl Error.packet_shape else inr p

-- The part of the admission that comes before the lock is taken.
unfoldable pub checked : {S : Type 0} → Settings S → Packet → Error ⊎ Packet
unfolding contains
checked o p =
    if not (p.observer == o.observer)
    then inl Error.observer_mismatch
    else if p.epoch == 0
    then inl Error.epoch_mismatch
    else if not (contains o.supported p.schema_version)
    then inl Error.schema_mismatch
    else if not (p.schema_version == o.schema_version)
    then named (migrate o.migrator p o.schema_version)
    else named (inr p)

unfoldable pub is_busy : Applier → Stream → Bool
is_busy a s = any (equal_streams s) a.inflight

-- The cursor that a packet follows; a new epoch has none.
unfoldable pub current_cursor : Applier → Packet → StreamCursor
current_cursor a p = if a.epoch == p.epoch then a.sequences p.stream else no_cursor

-- A delta that does not follow its stream's cursor.
unfoldable pub has_gap : StreamCursor → Packet → Bool
has_gap c p =
    not (c.epoch == 0)
      && (not (p.base_sequence == c.sequence) || not (p.sequence == (c.sequence + 1) % 2 ^ 64))
    || c.epoch == 0 && (not (p.base_sequence == 0) || not (p.sequence == 1))

unfoldable pub is_duplicate : StreamCursor → Packet → Bool
is_duplicate c p = c.epoch == p.epoch && leb p.sequence c.sequence

unfoldable pub admit_after : StreamCursor → Packet → Applier → Admission × Applier
unfolding has_gap is_duplicate
admit_after c p a =
    if is_duplicate c p
    then (already_applied c.sequence p.epoch, a)
    else if p.full && not (p.base_sequence == 0)
    then (rejected Error.packet_shape, a)
    else if not p.full && has_gap c p
    then (rejected Error.sequence_gap, a)
    else (admitted p, record a { inflight = p.stream ∷ a.inflight })

unfoldable pub admit_locked : Packet → Applier → Admission × Applier
unfolding is_busy current_cursor admit_after
admit_locked p a =
    if not (a.pending_epoch == 0)
    then (rejected Error.apply_in_progress, a)
    else if is_busy a p.stream
    then (rejected Error.apply_in_progress, a)
    else if not (a.epoch == 0) && not (p.epoch == a.epoch)
    then (if not p.full
        then (rejected Error.epoch_mismatch, a)
        else if ltb 0 (length a.inflight)
        then (rejected Error.apply_in_progress, a)
        else admit_after (current_cursor a p) p (record a { pending_epoch = p.epoch }))
    else if a.epoch == 0
    then (if not p.full || ltb 0 (length a.inflight)
        then (rejected Error.epoch_mismatch, a)
        else admit_after (current_cursor a p) p (record a { pending_epoch = p.epoch }))
    else admit_after (current_cursor a p) p a

abbrev admit_checked : Error ⊎ Packet → Applier → Admission × Applier
admit_checked (inl e) a = (rejected e, a)
admit_checked (inr p) a = admit_locked p a

unfoldable pub admit : {S : Type 0} → Settings S → Packet → Applier → Admission × Applier
unfolding checked admit_locked
admit o p a = admit_checked (checked o p) a
