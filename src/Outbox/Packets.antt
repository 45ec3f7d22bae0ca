-- ===== src/Outbox/Packets.antt =====
-- skillsync/outbox.go: packets, their identities, and the pending entries. Of a packet of the
-- syncstream package, the fields that the outbox reads; an observer is only compared, and so is
-- known by a number.
use text.Mathlib.Text.{◌==◌ as str_eq}
use roost_skill.Common.{
  ℕ, Bool, false, if◌then◌else◌, not, ◌&&◌, List, [], ◌∷◌, Option, none, some, ◌==◌, String,
}
use roost_skill.Common.Int.{ℤ, eqb_ℤ}

pub record Packet : Type 0 where
  pub observer : ℕ
  pub topic : String
  pub key : ℤ
  pub epoch : ℕ
  pub sequence : ℕ
  pub payload : String

pub record StreamId : Type 0 where
  pub observer : ℕ
  pub topic : String
  pub key : ℤ
  pub epoch : ℕ

pub record PendingId : Type 0 where
  pub stream : StreamId
  pub sequence : ℕ

pub record Entry : Type 0 where
  pub packet : Packet
  pub attempts : ℕ
  pub next_attempt : ℕ
  pub created_at : ℕ
  pub bytes : ℤ
  pub publishing : Bool

pub record OutboxRecord : Type 0 where
  pub packet : Packet
  pub created_at : ℕ
  pub attempts : ℕ
  pub next_attempt : ℕ

abbrev pub stream_id : Packet → StreamId
stream_id p = record { observer = p.observer; topic = p.topic; key = p.key; epoch = p.epoch }

abbrev pub packet_id : Packet → PendingId
packet_id p = record { stream = stream_id p; sequence = p.sequence }

unfoldable pub same_stream : StreamId → StreamId → Bool
same_stream s t =
    s.observer == t.observer && str_eq s.topic t.topic && eqb_ℤ s.key t.key && s.epoch == t.epoch

unfoldable pub same_id : PendingId → PendingId → Bool
same_id i j = same_stream i.stream j.stream && i.sequence == j.sequence

-- The guard of Put and PutBatch.
unfoldable pub is_valid : Packet → Bool
is_valid p = not (str_eq p.topic "") && not (p.epoch == 0) && not (p.sequence == 0)

abbrev pub new_entry : Packet → ℕ → ℤ → Entry
new_entry p now bytes = record {
  packet = p;
  attempts = 0;
  next_attempt = 0;
  created_at = now;
  bytes = bytes;
  publishing = false;
}

abbrev pub new_record : Packet → ℕ → OutboxRecord
new_record p now = record { packet = p; created_at = now; attempts = 0; next_attempt = 0 }

-- The map `pending`: an entry stands under the id of its packet.
unfoldable pub find_entry : PendingId → List Entry → Option Entry
find_entry id [] = none
find_entry id (e ∷ es) = if same_id (packet_id e.packet) id then some e else find_entry id es

unfoldable pub put_entry : PendingId → Entry → List Entry → List Entry
put_entry id new [] = new ∷ []
put_entry id new (e ∷ es) =
    if same_id (packet_id e.packet) id then new ∷ es else e ∷ put_entry id new es

unfoldable pub drop_entry : PendingId → List Entry → List Entry
drop_entry id [] = []
drop_entry id (e ∷ es) = if same_id (packet_id e.packet) id then es else e ∷ drop_entry id es
