-- ===== src/Outbox/Options.antt =====
-- skillsync/outbox.go: NewOutbox.
use roost_skill.Common.{
  ℕ, zero, ◌^◌, ◌*◌, Bool, false, if◌then◌else◌, not, List, [], ◌∷◌, Option, none, some, ◌==◌,
}
use roost_skill.Common.Int.{ℤ, pos, negsuc, leb_ℤ}
use roost_skill.Outbox.Packets.{Packet, Entry, OutboxRecord, packet_id, is_valid, find_entry}
use roost_skill.Outbox.Storage.{Store, load_outbox_records}
use roost_skill.Outbox.{
  Outbox, Limits, Error, record_invalid, marshal_failed, store_required, load_failed, add_pending,
  capacity_error,
}

pub record OutboxOptions : Type 0 where
  pub require_durable : Bool
  pub ack_retry_interval : ℤ
  pub failure_retry_delay : ℤ
  pub max_retry_delay : ℤ
  pub max_pending_packets : ℤ
  pub max_pending_bytes : ℤ
  pub max_pending_per_stream : ℤ
  pub max_pending_age : ℤ
  pub max_publish_batch : ℤ

-- An option that is set, or the number that stands for one that is not.
abbrev pub number_or : ℤ → ℕ → ℕ
number_or (pos zero) d = d
number_or (pos n) d = n
number_or (negsuc n) d = d

abbrev pub value_or : ℤ → ℤ → ℤ
value_or z d = if leb_ℤ z (pos 0) then d else z

unfoldable pub limits_of : OutboxOptions → Limits
limits_of o = record {
  ack_retry = value_or o.ack_retry_interval (pos (5 * 10 ^ 9));
  failure_retry = value_or o.failure_retry_delay (pos (10 ^ 8));
  max_retry = value_or o.max_retry_delay (pos (30 * 10 ^ 9));
  max_packets = number_or o.max_pending_packets 100000;
  max_bytes = value_or o.max_pending_bytes (pos (2 ^ 28));
  max_per_stream = number_or o.max_pending_per_stream 4096;
  max_age = number_or o.max_pending_age (24 * 3600 * 10 ^ 9);
  max_publish = number_or o.max_publish_batch 512;
}

pub data Opened (S : Type 0) : Type 0 where
  opened : Outbox S → Opened S
  failed : Error → Opened S

module _ {S : Type 0} where
  abbrev pub then_open : Opened S → (Outbox S → Opened S) → Opened S
  then_open (opened box) next = next box
  then_open (failed e) next = failed e

  abbrev pub load_new : Option ℤ → Option Entry → OutboxRecord → ℕ → Outbox S → Opened S
  load_new none found r now box = failed marshal_failed
  load_new (some bytes) (some pending) r now box = failed record_invalid
  load_new (some bytes) none r now box = opened (
      add_pending (packet_id r.packet)
        (record {
          packet = r.packet;
          attempts = r.attempts;
          next_attempt = r.next_attempt;
          created_at = if r.created_at == 0 then now else r.created_at;
          bytes = bytes;
          publishing = false;
        })
        box)

  -- One round of the loop over the loaded records.
  unfoldable pub load_one : (Packet → Option ℤ) → ℕ → OutboxRecord → Outbox S → Opened S
  unfolding is_valid find_entry add_pending
  load_one size_of now r box =
      if not (is_valid r.packet)
      then failed record_invalid
      else load_new (size_of r.packet) (find_entry (packet_id r.packet) box.pending) r now box

  unfoldable pub load_each : (Packet → Option ℤ) → ℕ → List OutboxRecord → Outbox S → Opened S
  unfolding load_one
  load_each size_of now [] box = opened box
  load_each size_of now (r ∷ rs) box =
      then_open (load_one size_of now r box) (load_each size_of now rs)

  abbrev pub checked : Option Error → Outbox S → Opened S
  checked none box = opened box
  checked (some e) box = failed e

  abbrev pub load_all : (Packet → Option ℤ) → ℕ → Option (List OutboxRecord) → Outbox S → Opened S
  load_all size_of now none box = failed load_failed
  load_all size_of now (some rs) box =
      then_open (load_each size_of now rs box) (λ b. checked (capacity_error now none (pos 0) b) b)

  unfoldable pub empty_outbox : Limits → Option (Store S) → S → Outbox S
  empty_outbox limits store disk = record {
    limits = limits;
    store = store;
    disk = disk;
    pending_bytes = pos 0;
    pending = [];
    stream_pending = λ key. [];
    oldest_created_at = 0;
    acknowledged = 0;
    publish_attempts = 0;
    publish_successes = 0;
    publish_failures = 0;
  }

  unfoldable pub new_outbox :
      (Packet → Option ℤ) → OutboxOptions → Option (Store S) → S → ℕ → Opened S
  unfolding limits_of load_each capacity_error empty_outbox load_outbox_records
  new_outbox size_of options none disk now =
      if options.require_durable
      then failed store_required
      else opened (empty_outbox (limits_of options) none disk)
  new_outbox size_of options (some store) disk now =
      load_all size_of now (load_outbox_records store now disk)
        (empty_outbox (limits_of options) (some store) disk)
