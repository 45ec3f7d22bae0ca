-- ===== src/Outbox/Retention.antt =====
-- skillsync/outbox.go: publishing keeps every pending packet.
use roost_skill.Common.{
  ℕ, Bool, true, false, List, [], ◌∷◌, Option, none, some, map, ◌≡◌, refl, ap, ◌∙◌, arith, if_both,
}
use roost_skill.Common.Int.{pos}
use roost_skill.Outbox.Packets.{Packet, PendingId, Entry, packet_id, find_entry}
use roost_skill.Outbox.Storage.{RecordStore}
use roost_skill.Outbox.{Outbox, Error, capacity_error, unless}
use roost_skill.Outbox.Publish.{
  Scope, due, update_entry, mark, attempted, settle, settle_published, persisted, persist_attempt,
  record_of, count_attempt, publish_each, release_publishing, publish_due, publish_now, make_due,
  in_scope, record_store,
}

abbrev pub packets_of : List Entry → List Packet
packets_of = map λ e. e.packet

update_entry-packets :
    (id : PendingId) (f : Entry → Entry) (es : List Entry)
    → ((e : Entry) → (f e).packet ≡ e.packet)
    → packets_of (update_entry id f es) ≡ packets_of es
unfolding update_entry
update_entry-packets id f [] h = refl
update_entry-packets id f (e ∷ es) h = ground (arith, h e, update_entry-packets id f es h)

-- The entry that `find_entry` gives is the one that is written.
replace_found-packets :
    (id : PendingId) (new : Entry) (es : List Entry) {old : Entry}
    → find_entry id es ≡ some old
    → new.packet ≡ old.packet
    → packets_of (update_entry id (λ e. new) es) ≡ packets_of es
unfolding update_entry find_entry
replace_found-packets id new [] f h = refl
replace_found-packets id new (e ∷ es) {old} f h =
    ground (arith, replace_found-packets id new es {old = old})

mark-packets :
    (publishing : Bool) (ps : List Packet) (es : List Entry)
    → packets_of (mark publishing ps es) ≡ packets_of es
unfolding mark
mark-packets publishing [] es = refl
mark-packets publishing (p ∷ ps) es =
    mark-packets publishing ps _ ∙ update_entry-packets (packet_id p) _ es (λ e. refl)

make_due-packets :
    (scope : Scope) (es : List Entry) → packets_of (make_due scope es) ≡ packets_of es
unfolding make_due
make_due-packets scope [] = refl
make_due-packets scope (e ∷ es) =
    if_both {A = Entry} (λ d. packets_of (d ∷ make_due scope es) ≡ packets_of (e ∷ es))
      (in_scope scope e.packet) (ap (λ l. e.packet ∷ l) (make_due-packets scope es))
      (ap (λ l. e.packet ∷ l) (make_due-packets scope es))

module _ {S : Type 0} where
  persisted-packets :
      (w : S × Bool) (id : PendingId) (old new : Entry) (success : Bool) (box : Outbox S)
      → find_entry id box.pending ≡ some old
      → new.packet ≡ old.packet
      → packets_of (persisted w id old new success box).0.pending ≡ packets_of box.pending
  persisted-packets (d, true) id old new success box f e =
      replace_found-packets id new box.pending f e
  persisted-packets (d, false) id old new success box f e =
      replace_found-packets id (record old { publishing = false }) box.pending f refl

  persist_attempt-packets :
      (o : Option (RecordStore S)) (id : PendingId) (old new : Entry) (success : Bool)
      (box : Outbox S)
      → find_entry id box.pending ≡ some old
      → new.packet ≡ old.packet
      → packets_of (persist_attempt o id old new success box).0.pending ≡ packets_of box.pending
  persist_attempt-packets none id old new success box f e =
      persisted-packets (box.disk, true) id old new success box f e
  persist_attempt-packets (some records) id old new success box f e =
      persisted-packets (records.put_record (record_of new) box.disk) id old new success box f e

  settle-packets :
      (id : PendingId) (o : Option Entry) (now : ℕ) (success : Bool) (box : Outbox S)
      → find_entry id box.pending ≡ o
      → packets_of (settle id o now success box).0.pending ≡ packets_of box.pending
  unfolding settle attempted count_attempt
  settle-packets id none now success box f = refl
  settle-packets id (some e) now success box f =
      persist_attempt-packets (record_store box.store) id e (attempted box.limits now success e)
        success (count_attempt success box) f refl

  settle_published-packets :
      (w : S × Bool) (p : Packet) (now : ℕ) (box : Outbox S)
      → packets_of (settle_published w p now box).0.pending ≡ packets_of box.pending
  settle_published-packets (d, success) p now box =
      settle-packets (packet_id p) _ now success (record box { disk = d }) refl

  publish_each-packets :
      (publish : Packet → S → S × Bool) (now : ℕ) (ps : List Packet) (box : Outbox S)
      → packets_of (publish_each publish now ps box).0.pending ≡ packets_of box.pending
  unfolding publish_each
  publish_each-packets publish now [] box = refl
  publish_each-packets publish now (p ∷ ps) box =
      publish_each-packets publish now ps (settle_published (publish p box.disk) p now box).0
      ∙ settle_published-packets (publish p box.disk) p now box

  unless-packets :
      (o : Option Error) (box : Outbox S) (next : Outbox S × Option Error)
      → packets_of next.0.pending ≡ packets_of box.pending
      → packets_of (unless o box next).0.pending ≡ packets_of box.pending
  unless-packets none box next e = e
  unless-packets (some error) box next e = refl

  -- PublishDue leaves every packet pending, and in the same order, whether the publisher and the
  -- store take it or fail.
  pub publish_due-packets :
      (publish : Packet → S → S × Bool) (now : ℕ) (scope : Scope) (box : Outbox S)
      → packets_of (publish_due publish now scope box).0.pending ≡ packets_of box.pending
  unfolding publish_due due release_publishing
  publish_due-packets publish now scope box =
      let packets = (due now scope box).1 in
      let marked = record box { pending = mark true packets box.pending } in
      unless-packets (capacity_error now none (pos 0) box) box _ (
        mark-packets false packets (publish_each publish now packets marked).0.pending
        ∙ publish_each-packets publish now packets marked
        ∙ mark-packets true packets box.pending)

  -- PublishNow leaves every packet pending, and in the same order, as well.
  pub publish_now-packets :
      (publish : Packet → S → S × Bool) (now : ℕ) (scope : Scope) (box : Outbox S)
      → packets_of (publish_now publish now scope box).0.pending ≡ packets_of box.pending
  unfolding publish_now
  publish_now-packets publish now scope box =
      publish_due-packets publish now scope (record box { pending = make_due scope box.pending })
      ∙ make_due-packets scope box.pending
