-- ===== src/Outbox/Capacity.antt =====
-- skillsync/outbox.go: Put against the limits of the outbox.
use roost_skill.Common.{◌≤◌, List, [], ◌∷◌, ◌≡◌, length}
use roost_skill.Common.Int.{ℤ, pos, ◌≤ℤ◌, ◌+ℤ◌, max64}
use roost_skill.Outbox.Packets.{StreamId, Entry}
use roost_skill.Outbox.{Outbox, Limits}
use roost_skill.Outbox.Batch.{count_on}

-- The exact sum of the packets' bytes.
unfoldable pub total_bytes : List Entry → ℤ
total_bytes [] = pos 0
total_bytes (e ∷ es) = e.bytes +ℤ total_bytes es

-- A box within its limits: the packets, the sum of their bytes, and the packets of each stream. The
-- counter of bytes is that sum.
pub record IsWithin (limits : Limits) (pending : List Entry) (pending_bytes : ℤ) : Type 0 where
  pub packets : length pending ≤ limits.max_packets
  pub counted : pending_bytes ≡ total_bytes pending
  pub nonneg : pos 0 ≤ℤ pending_bytes
  pub bytes : total_bytes pending ≤ℤ limits.max_bytes
  pub streams : (s : StreamId) → count_on s pending ≤ limits.max_per_stream

-- A size of a packet's JSON: not negative, and added to a full box not beyond int64.
abbrev pub IsSize : ℤ → ℤ → Type 0
IsSize max_bytes n = (pos 0 ≤ℤ n) × ((max_bytes +ℤ n) ≤ℤ max64)

module _ {S : Type 0} where
  abbrev pub Fits : Outbox S → Type 0
  Fits box = IsWithin box.limits box.pending box.pending_bytes
