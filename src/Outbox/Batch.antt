-- ===== src/Outbox/Batch.antt =====
-- skillsync/outbox.go: PutBatch and Reconcile.
use roost_skill.Common.{
  ℕ, ◌+◌, Bool, if◌then◌else◌, not, ◌||◌, ◌++◌, List, [], ◌∷◌, Option, none, some, ltb, any, length,
  filter,
}
use roost_skill.Common.Int.{ℤ, pos, add64}
use roost_skill.Outbox.{
  Outbox, Error, record_invalid, marshal_failed, capacity_exceeded, add_pending, exceeds,
  capacity_error, after_store, unless,
}
use roost_skill.Outbox.Packets.{
  Packet, StreamId, Entry, OutboxRecord, packet_id, stream_id, same_stream, is_valid, find_entry,
  new_entry, new_record,
}
use roost_skill.Outbox.Storage.{persist_all}

-- What the first loop of PutBatch has collected; its maps `seen` and `additionalPerStream` are read
-- off `entries`. The lists are the source's, in its order.
pub record Batch : Type 0 where
  pub bytes : ℤ
  pub records : List OutboxRecord
  pub entries : List Entry

pub data Gathered : Type 0 where
  gathered : Batch → Gathered
  rejected : Error → Gathered

abbrev pub collect : Packet → ℕ → Option ℤ → Batch → Gathered
collect p now none b = rejected marshal_failed
collect p now (some bytes) b = gathered (record {
  bytes = add64 b.bytes bytes;
  records = b.records ++ new_record p now ∷ [];
  entries = b.entries ++ new_entry p now bytes ∷ [];
})

abbrev pub collect_new : Packet → ℕ → Option ℤ → Option Entry → Option Entry → Batch → Gathered
collect_new p now size none none b = collect p now size b
collect_new p now size none (some seen) b = gathered b
collect_new p now size (some pending) seen b = gathered b

-- One round of the loop: `pending` is the list of the box.
unfoldable pub gather_one : (Packet → Option ℤ) → ℕ → List Entry → Packet → Batch → Gathered
unfolding is_valid find_entry
gather_one size_of now pending p b =
    if not (is_valid p)
    then rejected record_invalid
    else collect_new p now (size_of p) (find_entry (packet_id p) pending)
        (find_entry (packet_id p) b.entries) b

abbrev pub and_then : Gathered → (Batch → Gathered) → Gathered
and_then (gathered b) next = next b
and_then (rejected e) next = rejected e

unfoldable pub gather : (Packet → Option ℤ) → ℕ → List Entry → List Packet → Batch → Gathered
unfolding gather_one
gather size_of now pending [] b = gathered b
gather size_of now pending (p ∷ ps) b =
    and_then (gather_one size_of now pending p b) (gather size_of now pending ps)

-- The entries of a list on a stream.
unfoldable pub count_on : StreamId → List Entry → ℕ
count_on key [] = 0
count_on key (e ∷ es) =
    if same_stream (stream_id e.packet) key then 1 + count_on key es else count_on key es

module _ {S : Type 0} where
  -- The loop over `additionalPerStream`, whose keys are the streams of the entries.
  unfoldable pub exceeds_stream : List Entry → Outbox S → Bool
  unfolding count_on
  exceeds_stream entries box =
      any
        (λ e. ltb box.limits.max_per_stream (
          length (box.stream_pending (stream_id e.packet)) + count_on (stream_id e.packet) entries))
        entries

  unfoldable pub add_all : List Entry → Outbox S → Outbox S
  unfolding add_pending
  add_all [] box = box
  add_all (e ∷ es) box = add_all es (add_pending (packet_id e.packet) e box)

  unfoldable pub commit : Batch → Outbox S → Outbox S × Option Error
  unfolding exceeds_stream persist_all add_all
  commit b box =
      if exceeds (length b.entries) b.bytes box || exceeds_stream b.entries box
      then (box, some capacity_exceeded)
      else after_store (persist_all box.store b.records box.disk) box (add_all b.entries)

  abbrev pub commit_gathered : Gathered → Outbox S → Outbox S × Option Error
  commit_gathered (gathered b) box = commit b box
  commit_gathered (rejected e) box = (box, some e)

  unfoldable pub put_batch :
      (Packet → Option ℤ) → List Packet → ℕ → Outbox S → Outbox S × Option Error
  unfolding capacity_error gather commit
  put_batch size_of ps now box = unless (capacity_error now none (pos 0) box) box (
      commit_gathered
        (gather size_of now box.pending ps (record { bytes = pos 0; records = []; entries = [] }))
        box)

-- A stream of a history snapshot of the syncstream package: the fields that Reconcile reads.
pub record HistoryStream : Type 0 where
  pub acked : ℕ
  pub packets : List Packet

unfoldable pub unacknowledged : List HistoryStream → List Packet
unacknowledged [] = []
unacknowledged (h ∷ hs) = filter (λ p. ltb h.acked p.sequence) h.packets ++ unacknowledged hs

module _ {S : Type 0} where
  unfoldable pub reconcile :
      (Packet → Option ℤ) → List HistoryStream → ℕ → Outbox S → Outbox S × Option Error
  unfolding unacknowledged put_batch
  reconcile size_of streams now box = put_batch size_of (unacknowledged streams) now box
