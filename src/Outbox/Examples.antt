-- ===== src/Outbox/Examples.antt =====
-- skillsync/outbox.go at concrete inputs: an instance of each theorem that has hypotheses. The store
-- counts its records.
use roost_skill.Common.{
  sort_by, insert_sorted, ℕ, ◌+◌, true, false, if◌then◌else◌, ◌&&◌, [], ◌∷◌, Option, none, some,
  ◌≡◌, refl, leb,
}
use roost_skill.Common.Int.{ℤ, pos, add64, wrap64, ◌+ℤ◌}
use roost_skill.Common.Maps.{insert}
use roost_skill.Outbox.Packets.{
  Packet, stream_id, same_stream, same_id, find_entry, put_entry, is_valid,
}
use roost_skill.Outbox.Storage.{Store, persist, delete_stored}
use roost_skill.Outbox.{
  Outbox, Limits, put, put_sized, capacity_error, add_pending, note_created_at,
}
use roost_skill.Outbox.Batch.{put_batch}
use roost_skill.Outbox.Removal.{acknowledge, delete_pending, delete_each}
use roost_skill.Outbox.Options.{OutboxOptions, empty_outbox}
use roost_skill.Outbox.Publish.{publish_due}
use roost_skill.Outbox.Index.{id_of}
use roost_skill.Outbox.Consistency.{IsConsistent, put-IsConsistent}
use roost_skill.Outbox.Batches.{put_batch-IsConsistent}
use roost_skill.Outbox.Acknowledgement.{acknowledge_lem}
use roost_skill.Outbox.Retention.{packets_of, publish_due-packets}
use roost_skill.Outbox.Opening.{empty-IsConsistent}

abbrev counter : Store ℕ
counter = record {
  load = λ n. some [];
  put = λ p n. (n + 1, true);
  delete = λ id n. (n + 1, true);
  records = some (record { load_records = λ n. some []; put_record = λ r n. (n + 1, true) });
  put_records = none;
  delete_batch = none;
}

abbrev limits : Limits
limits = record {
  ack_retry = pos 5;
  failure_retry = pos 100;
  max_retry = pos 3000;
  max_packets = 2;
  max_bytes = pos 1000;
  max_per_stream = 2;
  max_age = 100000;
  max_publish = 1;
}

abbrev size_of : Packet → Option ℤ
size_of p = some (pos 100)

abbrev first : Packet
first = record {
  observer = 4;
  topic = "roost.skill.state";
  key = pos 7;
  epoch = 1;
  sequence = 1;
  payload = "full";
}

abbrev second : Packet
second = record first { sequence = 2; payload = "delta" }

abbrev empty : Outbox ℕ
empty = empty_outbox limits (some counter) 0

empty_lem : IsConsistent empty
empty_lem = empty-IsConsistent limits (some counter) 0

abbrev holding : Outbox ℕ
holding = (put size_of first 50 empty).0

holding_lem : IsConsistent holding
holding_lem = put-IsConsistent size_of first 50 empty empty_lem

put_batch-IsConsistent_example :
    IsConsistent (put_batch size_of (first ∷ second ∷ second ∷ []) 60 holding).0
put_batch-IsConsistent_example =
    put_batch-IsConsistent size_of (first ∷ second ∷ second ∷ []) 60 holding holding_lem

abbrev size_or : Option ℤ → ℤ
size_or none = pos 0
size_or (some n) = n

acknowledged_lem : (acknowledge (stream_id first) 1 holding).1 ≡ none
unfolding acknowledge delete_pending delete_each delete_stored sort_by insert_sorted same_stream
    same_id put put_sized find_entry is_valid capacity_error persist empty_outbox add_pending
    note_created_at put_entry insert add64 wrap64 ◌+ℤ◌
acknowledged_lem = refl

acknowledge_lem_example :
    find_entry (id_of (stream_id first) 1) (acknowledge (stream_id first) 1 holding).0.pending ≡ (
      if same_stream (stream_id first) (stream_id first) && leb 1 1
      then none
      else find_entry (id_of (stream_id first) 1) holding.pending)
acknowledge_lem_example =
    acknowledge_lem (stream_id first) 1 holding (stream_id first) 1 holding_lem acknowledged_lem

publish_due-packets_example :
    packets_of (publish_due (λ p n. (n, false)) 70 (none, none) holding).0.pending
    ≡ packets_of holding.pending
publish_due-packets_example = publish_due-packets (λ p n. (n, false)) 70 (none, none) holding

abbrev options : OutboxOptions
options = record {
  require_durable = true;
  ack_retry_interval = pos 0;
  failure_retry_delay = pos 0;
  max_retry_delay = pos 0;
  max_pending_packets = pos 0;
  max_pending_bytes = pos 0;
  max_pending_per_stream = pos 0;
  max_pending_age = pos 0;
  max_publish_batch = pos 0;
}
