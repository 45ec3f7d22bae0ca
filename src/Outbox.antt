-- ===== src/Outbox.antt =====
-- skillsync/outbox.go: the packets that wait for a client's acknowledgement. The lock is not
-- modelled: each operation holds it from its first read to its last write. A box is not nil, and an
-- operation reads the clock once.
pub mod Packets
pub mod Storage
pub mod Batch
pub mod Removal
pub mod Options
pub mod Publish
pub mod Identity
pub mod Index
pub mod Batches
pub mod Capacity
pub mod Acknowledgement
pub mod Retention
pub mod Backoff
pub mod Opening
mod Examples
pub mod Consistency
use roost_skill.Common.{
  ℕ, ◌+◌, ◌-◌, ◌%◌, ◌^◌, Bool, true, false, if◌then◌else◌, not, ◌&&◌, ◌||◌, ◌++◌, List, [], ◌∷◌,
  Option, none, some, map, ◌==◌, ltb, leb, any, length, filter,
}
use roost_skill.Common.Int.{ℤ, pos, ltb_ℤ, add64, sub64}
use roost_skill.Common.Maps.{Map, insert, erase}
use Packets.{
  Packet, PendingId, StreamId, Entry, OutboxRecord, packet_id, stream_id, same_id, same_stream,
  is_valid, find_entry, put_entry, drop_entry, new_entry, new_record,
}
use Storage.{Store, persist, persist_all, delete_stored}

pub data Error : Type 0 where
  record_invalid marshal_failed capacity_exceeded pending_too_old store_failed : Error
  store_required load_failed publish_failed : Error

-- A duration is int64 nanoseconds (`max_age` is not negative), a time is those since the zero time.
pub record Limits : Type 0 where
  pub ack_retry : ℤ
  pub failure_retry : ℤ
  pub max_retry : ℤ
  pub max_packets : ℕ
  pub max_bytes : ℤ
  pub max_per_stream : ℕ
  pub max_age : ℕ
  pub max_publish : ℕ

-- `disk` is the state of what is outside: of the store, and of the publisher. A missing key of `stream_pending` reads as an empty map, so that
-- map is a function.
pub record Outbox (S : Type 0) : Type 0 where
  pub limits : Limits
  pub store : Option (Store S)
  pub disk : S
  pub pending_bytes : ℤ
  pub pending : List Entry
  pub stream_pending : StreamId → Map PendingId
  pub oldest_created_at : ℕ
  pub acknowledged : ℕ
  pub publish_attempts : ℕ
  pub publish_successes : ℕ
  pub publish_failures : ℕ

-- A uint64 counter.
abbrev pub count_up : ℕ → ℕ
count_up n = (n + 1) % 2 ^ 64

abbrev at_least_zero : ℤ → ℤ
at_least_zero bytes = if ltb_ℤ bytes (pos 0) then pos 0 else bytes

-- One stream's map is written, the others stay.
abbrev pub at_stream :
    StreamId
    → (Map PendingId → Map PendingId)
    → (StreamId → Map PendingId)
    → StreamId
    → Map PendingId
at_stream key f index k = if same_stream k key then f (index k) else index k

-- `now.Sub`, which is saturated.
abbrev pub age : ℕ → ℕ → ℕ
age now t = if ltb (2 ^ 63 - 1) (now - t) then 2 ^ 63 - 1 else now - t

module _ {S : Type 0} where
  unfoldable pub note_created_at : ℕ → Outbox S → Outbox S
  note_created_at t box =
      if not (t == 0) && (box.oldest_created_at == 0 || ltb t box.oldest_created_at)
      then record box { oldest_created_at = t }
      else box

  unfoldable pub note_all : List Entry → Outbox S → Outbox S
  unfolding note_created_at
  note_all [] box = box
  note_all (e ∷ es) box = note_all es (note_created_at e.created_at box)

  unfoldable pub recompute_oldest : Outbox S → Outbox S
  unfolding note_all
  recompute_oldest box = note_all box.pending (record box { oldest_created_at = 0 })

  unfoldable pub add_pending : PendingId → Entry → Outbox S → Outbox S
  unfolding note_created_at put_entry insert
  add_pending id entry box = note_created_at entry.created_at (record box {
    pending = put_entry id entry box.pending;
    pending_bytes = add64 box.pending_bytes entry.bytes;
    stream_pending = at_stream (stream_id entry.packet) (insert id.sequence id) box.stream_pending;
  })

  -- The entry out of both maps and out of the sum.
  unfoldable pub take_out : PendingId → Entry → Outbox S → Outbox S
  unfolding drop_entry erase
  take_out id entry box = record box {
    pending = drop_entry id box.pending;
    pending_bytes = sub64 box.pending_bytes entry.bytes;
    stream_pending = at_stream (stream_id entry.packet) (erase id.sequence) box.stream_pending;
  }

  unfoldable pub note_removal : ℕ → Outbox S → Outbox S
  unfolding recompute_oldest
  note_removal created_at box =
      if created_at == box.oldest_created_at then recompute_oldest box else box

  unfoldable pub remove_entry : PendingId → Bool → Entry → Outbox S → Outbox S
  unfolding take_out note_removal
  remove_entry id acknowledged entry box =
      let noted = note_removal entry.created_at (take_out id entry box) in
      record noted {
        pending_bytes = at_least_zero noted.pending_bytes;
        acknowledged = if acknowledged then count_up noted.acknowledged else noted.acknowledged;
      }

  unfoldable pub remove_pending_of : PendingId → Bool → Option Entry → Outbox S → Outbox S
  unfolding remove_entry
  remove_pending_of id acknowledged none box = box
  remove_pending_of id acknowledged (some entry) box = remove_entry id acknowledged entry box

  unfoldable pub remove_pending : PendingId → Bool → Outbox S → Outbox S
  unfolding remove_pending_of find_entry
  remove_pending id acknowledged box =
      remove_pending_of id acknowledged (find_entry id box.pending) box

  abbrev pub is_too_old : ℕ → Outbox S → Bool
  is_too_old now box =
      ltb 0 box.limits.max_age
      && not (box.oldest_created_at == 0)
      && ltb box.limits.max_age (age now box.oldest_created_at)

  abbrev pub exceeds : ℕ → ℤ → Outbox S → Bool
  exceeds packets bytes box =
      ltb box.limits.max_packets (length box.pending + packets)
      || ltb_ℤ box.limits.max_bytes (add64 box.pending_bytes bytes)

  abbrev pub age_error : ℕ → Outbox S → Option Error
  age_error now box = if is_too_old now box then some pending_too_old else none

  unfoldable pub capacity_error : ℕ → Option Packet → ℤ → Outbox S → Option Error
  capacity_error now none bytes box =
      if exceeds 0 bytes box then some capacity_exceeded else age_error now box
  capacity_error now (some p) bytes box =
      if exceeds 1 bytes box
      then some capacity_exceeded
      else if ltb box.limits.max_per_stream (length (box.stream_pending (stream_id p)) + 1)
      then some capacity_exceeded
      else age_error now box

  -- The outcome of a write to the store: the box over the new disk, or an error.
  abbrev pub after_store : S × Bool → Outbox S → (Outbox S → Outbox S) → Outbox S × Option Error
  after_store (disk, true) box f = (f (record box { disk = disk }), none)
  after_store (disk, false) box f = (record box { disk = disk }, some store_failed)

  abbrev pub unless : Option Error → Outbox S → Outbox S × Option Error → Outbox S × Option Error
  unless none box next = next
  unless (some e) box next = (box, some e)

  -- `size` is what outboxPacketBytes answers: the length of the packet's JSON, or an error.
  unfoldable pub put_sized : Option ℤ → Packet → ℕ → Outbox S → Outbox S × Option Error
  unfolding capacity_error persist add_pending
  put_sized none p now box = (box, some marshal_failed)
  put_sized (some bytes) p now box = unless (capacity_error now (some p) bytes box) box (
      after_store (persist box.store (new_record p now) box.disk) box
        (add_pending (packet_id p) (new_entry p now bytes)))

  abbrev pub put_absent :
      Option Entry → Outbox S → Outbox S × Option Error → Outbox S × Option Error
  put_absent none box next = next
  put_absent (some pending) box next = (box, none)

  unfoldable pub put : (Packet → Option ℤ) → Packet → ℕ → Outbox S → Outbox S × Option Error
  unfolding put_sized find_entry
  put size_of p now box =
      if not (is_valid p)
      then (box, some record_invalid)
      else put_absent (find_entry (packet_id p) box.pending) box (put_sized (size_of p) p now box)
