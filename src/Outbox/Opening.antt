-- ===== src/Outbox/Opening.antt =====
-- skillsync/outbox.go: the box that NewOutbox opens.
use roost_skill.Common.{ℕ, not, List, [], ◌∷◌, Option, none, some, ◌≡◌, refl, if_both}
use roost_skill.Common.Int.{ℤ, pos}
use roost_skill.Common.Maps.{lookup}
use roost_skill.Outbox.Batch.{count_on}
use roost_skill.Outbox.Packets.{Packet, Entry, OutboxRecord, packet_id, is_valid, find_entry}
use roost_skill.Outbox.Storage.{Store, load_outbox_records}
use roost_skill.Outbox.{Outbox, Limits, Error, capacity_error, record_invalid, store_required}
use roost_skill.Outbox.Options.{
  Opened, opened, failed, then_open, load_new, load_one, load_each, checked, load_all, empty_outbox,
  new_outbox, OutboxOptions, limits_of,
}
use roost_skill.Outbox.Consistency.{IsConsistent, add_pending-IsConsistent}

module _ {S : Type 0} where
  -- The box, if one is opened, has the property.
  abbrev pub Opens : (Outbox S → Type 0) → Opened S → Type 0
  Opens P (opened box) = P box
  Opens P (failed e) = Unit

  load_new-IsConsistent :
      (size : Option ℤ) (o : Option Entry) (r : OutboxRecord) (now : ℕ) (box : Outbox S)
      → find_entry (packet_id r.packet) box.pending ≡ o
      → IsConsistent box
      → Opens IsConsistent (load_new size o r now box)
  load_new-IsConsistent none o r now box f v = tt
  load_new-IsConsistent (some bytes) (some e) r now box f v = tt
  load_new-IsConsistent (some bytes) none r now box f v = add_pending-IsConsistent _ box f v

  load_one-IsConsistent :
      (size_of : Packet → Option ℤ) (now : ℕ) (r : OutboxRecord) (box : Outbox S)
      → IsConsistent box
      → Opens IsConsistent (load_one size_of now r box)
  unfolding load_one
  load_one-IsConsistent size_of now r box v =
      if_both (Opens IsConsistent) (not (is_valid r.packet)) {x = failed record_invalid} tt (
        load_new-IsConsistent (size_of r.packet) (find_entry (packet_id r.packet) box.pending) r now
          box refl v)

  then_open-IsConsistent :
      (o : Opened S) (next : Outbox S → Opened S)
      → ((b : Outbox S) → IsConsistent b → Opens IsConsistent (next b))
      → Opens IsConsistent o
      → Opens IsConsistent (then_open o next)
  then_open-IsConsistent (opened box) next h v = h box v
  then_open-IsConsistent (failed e) next h v = tt

  load_each-IsConsistent :
      (size_of : Packet → Option ℤ) (now : ℕ) (rs : List OutboxRecord) (box : Outbox S)
      → IsConsistent box
      → Opens IsConsistent (load_each size_of now rs box)
  unfolding load_each
  load_each-IsConsistent size_of now [] box v = v
  load_each-IsConsistent size_of now (r ∷ rs) box v =
      then_open-IsConsistent (load_one size_of now r box) (load_each size_of now rs)
        (λ b w. load_each-IsConsistent size_of now rs b w)
        (load_one-IsConsistent size_of now r box v)

  checked-IsConsistent :
      (o : Option Error) (box : Outbox S) → IsConsistent box → Opens IsConsistent (checked o box)
  checked-IsConsistent none box v = v
  checked-IsConsistent (some e) box v = tt

  load_all-IsConsistent :
      (size_of : Packet → Option ℤ) (now : ℕ) (rs : Option (List OutboxRecord)) (box : Outbox S)
      → IsConsistent box
      → Opens IsConsistent (load_all size_of now rs box)
  load_all-IsConsistent size_of now none box v = tt
  load_all-IsConsistent size_of now (some rs) box v =
      then_open-IsConsistent (load_each size_of now rs box) _
        (λ b w. checked-IsConsistent (capacity_error now none (pos 0) b) b w)
        (load_each-IsConsistent size_of now rs box v)

  pub empty-IsConsistent :
      (limits : Limits) (store : Option (Store S)) (disk : S)
      → IsConsistent (empty_outbox limits store disk)
  unfolding empty_outbox lookup find_entry count_on
  empty-IsConsistent limits store disk = record {
    unique = tt;
    indexed = λ s q. refl;
    listed = λ s. tt;
    counted = λ s. refl;
  }

  -- A box that NewOutbox opens, over whatever records its store holds, has an index by stream that
  -- agrees with its pending packets.
  pub new_outbox-IsConsistent :
      (size_of : Packet → Option ℤ) (options : OutboxOptions) (store : Option (Store S)) (disk : S)
      (now : ℕ)
      → Opens IsConsistent (new_outbox size_of options store disk now)
  unfolding new_outbox
  new_outbox-IsConsistent size_of options none disk now =
      if_both (Opens IsConsistent) options.require_durable {x = failed store_required} tt
        (empty-IsConsistent (limits_of options) none disk)
  new_outbox-IsConsistent size_of options (some store) disk now =
      load_all-IsConsistent size_of now (load_outbox_records store now disk)
        (empty_outbox (limits_of options) (some store) disk)
        (empty-IsConsistent (limits_of options) (some store) disk)
