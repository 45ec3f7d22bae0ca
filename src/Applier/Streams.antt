-- ===== src/Applier/Streams.antt =====
-- skillsync/applier.go and skillsync/skillsync.go: the packets and records that the applier reads.
-- Of a packet of the syncstream package, the fields that the applier reads; an observer is only
-- compared, and so is known by a number. Of a plan, a snapshot, a mutation, a reset and an event of
-- the skill package, the fields that the applier reads and, as `rest`, what it hands on.
use text.Mathlib.Text.{◌==◌ as str_eq}
use roost_skill.Common.{ℕ, Bool, ◌&&◌, Option, String}
use roost_skill.Common.Int.{ℤ, eqb_ℤ}

pub record Stream : Type 0 where
  pub topic : String
  pub key : ℤ

unfoldable pub equal_streams : Stream → Stream → Bool
equal_streams s t = str_eq s.topic t.topic && eqb_ℤ s.key t.key

pub record Packet : Type 0 where
  pub observer : ℕ
  pub stream : Stream
  pub epoch : ℕ
  pub sequence : ℕ
  pub base_sequence : ℕ
  pub full : Bool
  pub schema_version : ℕ
  pub payload : String

pub data RecordKind : Type 0 where
  manifest state_full state_delta presentation presentation_reset : RecordKind
  unknown_kind : String → RecordKind

pub record Header : Type 0 where
  pub schema_version : ℕ
  pub kind : RecordKind
  pub presentation_digest : String

pub record Plan : Type 0 where
  pub presentation_digest : String
  pub rest : String

pub record Snapshot : Type 0 where
  pub latest_state_mutation_sequence : ℕ
  pub rest : String

pub record Mutation : Type 0 where
  pub sequence : ℕ
  pub kind : String
  pub rest : String

pub record Reset : Type 0 where
  pub latest_presentation_sequence : ℕ
  pub rest : String

pub record Event : Type 0 where
  pub sequence : ℕ
  pub kind : String
  pub presentation_digest : String
  pub rest : String

pub record ManifestRecord : Type 0 where
  pub header : Header
  pub plan : Plan

pub record StateRecord : Type 0 where
  pub header : Header
  pub snapshot : Option Snapshot
  pub delta : Option Mutation

pub record PresentationRecord : Type 0 where
  pub header : Header
  pub event : Option Event
  pub reset : Option Reset

pub record StreamCursor : Type 0 where
  pub epoch : ℕ
  pub sequence : ℕ

abbrev pub no_cursor : StreamCursor
no_cursor = record { epoch = 0; sequence = 0 }
