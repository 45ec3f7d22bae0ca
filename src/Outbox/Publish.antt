-- ===== src/Outbox/Publish.antt =====
-- skillsync/outbox.go: PublishDue and PublishNow, by one caller at a time. Observers are numbered in
-- the order of observerLess.
use text.Mathlib.Text.{◌==◌ as str_eq}
use mathlib.Core.List.{reverse}
use roost_skill.Common.{
  text_less, ℕ, zero, suc, ◌+◌, ◌-◌, ◌%◌, ◌^◌, Bool, true, false, if◌then◌else◌, not, ◌&&◌, List,
  [], ◌∷◌, Option, none, some, ◌==◌, ltb, length, String,
}
use roost_skill.Common.Int.{ℤ, pos, pos_part, ◌+ℤ◌, mul64, ltb_ℤ, eqb_ℤ}
use roost_skill.Outbox.Packets.{
  Packet, PendingId, Entry, OutboxRecord, packet_id, same_id, find_entry,
}
use roost_skill.Outbox.Storage.{Store, RecordStore}
use roost_skill.Outbox.{Outbox, Limits, Error, publish_failed, capacity_error, unless, count_up}

unfoldable pub topic_priority : String → ℕ
topic_priority topic =
    if str_eq topic "roost.skill.manifest"
    then 0
    else if str_eq topic "roost.skill.state"
    then 1
    else if str_eq topic "roost.skill.presentation"
    then 2
    else 3

unfoldable pub packet_less : Packet → Packet → Bool
unfolding topic_priority
packet_less p q =
    if not (p.observer == q.observer)
    then ltb p.observer q.observer
    else if not (str_eq p.topic q.topic)
    then (if not (topic_priority p.topic == topic_priority q.topic)
        then ltb (topic_priority p.topic) (topic_priority q.topic)
        else text_less p.topic q.topic)
    else if not (eqb_ℤ p.key q.key)
    then ltb_ℤ p.key q.key
    else if not (p.epoch == q.epoch)
    then ltb p.epoch q.epoch
    else ltb p.sequence q.sequence

-- The observer and the stream (topic and key) that a call is for; none is any.
abbrev pub Scope : Type 0
Scope = Option ℕ × Option (String × ℤ)

abbrev for_observer : Option ℕ → Packet → Bool
for_observer none p = true
for_observer (some o) p = p.observer == o

abbrev for_stream : Option (String × ℤ) → Packet → Bool
for_stream none p = true
for_stream (some s) p = str_eq p.topic s.0 && eqb_ℤ p.key s.1

abbrev pub in_scope : Scope → Packet → Bool
in_scope scope p = for_observer scope.0 p && for_stream scope.1 p

unfoldable pub is_ready : ℕ → Scope → Entry → Bool
is_ready now scope e =
    in_scope scope e.packet
    && not e.publishing
    && not (not (e.next_attempt == 0) && ltb now e.next_attempt)

-- The heap of `due`, kept as the list of its packets from the least preferred to the most.
unfoldable pub push : Packet → List Packet → List Packet
unfolding packet_less
push p [] = p ∷ []
push p (q ∷ qs) = if packet_less p q then q ∷ push p qs else p ∷ q ∷ qs

abbrev replace_worst : Packet → List Packet → List Packet
replace_worst p [] = []
replace_worst p (q ∷ qs) = if packet_less p q then push p qs else q ∷ qs

unfoldable pub select : ℕ → Packet → List Packet → List Packet
unfolding push
select max_publish p heap =
    if ltb (length heap) max_publish then push p heap else replace_worst p heap

unfoldable pub due_loop : ℕ → ℕ → Scope → List Entry → List Packet → List Packet
unfolding is_ready select
due_loop max_publish now scope [] heap = heap
due_loop max_publish now scope (e ∷ es) heap =
    due_loop max_publish now scope es
      (if is_ready now scope e then select max_publish e.packet heap else heap)

-- A write through the pointer that `pending` holds for a packet.
unfoldable pub update_entry : PendingId → (Entry → Entry) → List Entry → List Entry
update_entry id f [] = []
update_entry id f (e ∷ es) =
    if same_id (packet_id e.packet) id then f e ∷ es else e ∷ update_entry id f es

unfoldable pub mark : Bool → List Packet → List Entry → List Entry
unfolding update_entry
mark publishing [] es = es
mark publishing (p ∷ ps) es =
    mark publishing ps (update_entry (packet_id p) (λ e. record e { publishing = publishing }) es)

-- The loop that doubles the delay, once for each attempt after the first.
unfoldable pub backoff : ℕ → ℤ → ℤ → ℤ
backoff zero delay max_retry = delay
backoff (suc n) delay max_retry =
    if ltb_ℤ delay max_retry then backoff n (mul64 delay (pos 2)) max_retry else delay

unfoldable pub retry_delay : Limits → ℕ → ℤ
unfolding backoff
retry_delay limits attempts =
    let delay = backoff (attempts - 1) limits.failure_retry limits.max_retry in
    if ltb_ℤ limits.max_retry delay then limits.max_retry else delay

-- `now.Add`
abbrev after : ℕ → ℤ → ℕ
after now d = pos_part (pos now +ℤ d)

-- An entry after an attempt that has succeeded or not.
unfoldable pub attempted : Limits → ℕ → Bool → Entry → Entry
unfolding retry_delay
attempted limits now success e =
    let attempts = (e.attempts + 1) % 2 ^ 32 in
    record e {
      publishing = false;
      attempts = attempts;
      next_attempt =
          if success then after now limits.ack_retry else after now (retry_delay limits attempts);
    }

abbrev pub record_of : Entry → OutboxRecord
record_of e = record {
  packet = e.packet;
  created_at = e.created_at;
  attempts = e.attempts;
  next_attempt = e.next_attempt;
}

unfoldable pub make_due : Scope → List Entry → List Entry
make_due scope [] = []
make_due scope (e ∷ es) =
    (if in_scope scope e.packet then record e { next_attempt = 0 } else e) ∷ make_due scope es

module _ {S : Type 0} where
  unfoldable pub due : ℕ → Scope → Outbox S → Outbox S × List Packet
  unfolding due_loop mark
  due now scope box =
      let packets = reverse (due_loop box.limits.max_publish now scope box.pending []) in
      (record box { pending = mark true packets box.pending }, packets)

  unfoldable pub count_attempt : Bool → Outbox S → Outbox S
  count_attempt success box = record box {
    publish_attempts = count_up box.publish_attempts;
    publish_successes = if success then count_up box.publish_successes else box.publish_successes;
    publish_failures = if success then box.publish_failures else count_up box.publish_failures;
  }

  abbrev pub record_store : Option (Store S) → Option (RecordStore S)
  record_store none = none
  record_store (some store) = store.records

  -- The record store has taken the attempt, or the entry goes back to the former one.
  abbrev pub persisted : S × Bool → PendingId → Entry → Entry → Bool → Outbox S → Outbox S × Bool
  persisted (disk, true) id old new success box =
      (record box { disk = disk; pending = update_entry id (λ e. new) box.pending }, success)
  persisted (disk, false) id old new success box = (
    record box {
      disk = disk;
      pending = update_entry id (λ e. record old { publishing = false }) box.pending;
    },
    false,
  )

  abbrev pub persist_attempt :
      Option (RecordStore S) → PendingId → Entry → Entry → Bool → Outbox S → Outbox S × Bool
  persist_attempt none id old new success box = persisted (box.disk, true) id old new success box
  persist_attempt (some records) id old new success box =
      persisted (records.put_record (record_of new) box.disk) id old new success box

  -- What follows an attempt on a packet whose entry is found, or is no longer pending.
  unfoldable pub settle : PendingId → Option Entry → ℕ → Bool → Outbox S → Outbox S × Bool
  unfolding attempted count_attempt update_entry
  settle id none now success box = (box, success)
  settle id (some e) now success box =
      persist_attempt (record_store box.store) id e (attempted box.limits now success e) success
        (count_attempt success box)

  abbrev pub settle_published : S × Bool → Packet → ℕ → Outbox S → Outbox S × Bool
  settle_published (disk, success) p now box =
      settle (packet_id p) (find_entry (packet_id p) box.pending) now success
        (record box { disk = disk })

  -- The loop of PublishDue; the Boolean is whether no attempt has failed.
  unfoldable pub publish_each :
      (Packet → S → S × Bool) → ℕ → List Packet → Outbox S → Outbox S × Bool
  unfolding settle
  publish_each publish now [] box = (box, true)
  publish_each publish now (p ∷ ps) box =
      let one = settle_published (publish p box.disk) p now box in
      let rest = publish_each publish now ps one.0 in (rest.0, one.1 && rest.1)

  unfoldable pub release_publishing : List Packet → Outbox S → Outbox S
  unfolding mark
  release_publishing ps box = record box { pending = mark false ps box.pending }

  abbrev pub publish_chosen :
      (Packet → S → S × Bool) → ℕ → Outbox S × List Packet → Outbox S × Option Error
  publish_chosen publish now (box, packets) =
      let r = publish_each publish now packets box in
      (release_publishing packets r.0, if r.1 then none else some publish_failed)

  -- The publisher is not nil.
  unfoldable pub publish_due :
      (Packet → S → S × Bool) → ℕ → Scope → Outbox S → Outbox S × Option Error
  unfolding capacity_error due publish_each release_publishing
  publish_due publish now scope box =
      unless (capacity_error now none (pos 0) box) box
        (publish_chosen publish now (due now scope box))

  unfoldable pub publish_now :
      (Packet → S → S × Bool) → ℕ → Scope → Outbox S → Outbox S × Option Error
  unfolding make_due publish_due
  publish_now publish now scope box =
      publish_due publish now scope (record box { pending = make_due scope box.pending })
