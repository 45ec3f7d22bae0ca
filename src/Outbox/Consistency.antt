-- ===== src/Outbox/Consistency.antt =====
-- skillsync/outbox.go: the index by stream and the map of pending packets stay in agreement.
use roost_skill.Common.{
  ℕ, Bool, true, false, not, List, [], ◌∷◌, Option, none, some, ◌≡◌, refl, ap, ◌∙◌, if_both, subst,
}
use roost_skill.Common.Int.{ℤ}
use roost_skill.Outbox.Packets.{
  StreamId, PendingId, Entry, Packet, packet_id, find_entry, new_entry, new_record, is_valid,
}
use roost_skill.Outbox.Storage.{persist, delete_stored}
use roost_skill.Outbox.{
  Outbox, Error, add_pending, note_created_at, note_all, recompute_oldest, remove_entry, take_out,
  note_removal, remove_pending, remove_pending_of, put_sized, put_absent, put, capacity_error,
  after_store, unless,
}
use roost_skill.Outbox.Removal.{
  remove_all, delete_each, deleted, delete_by, batch_deleter, delete_pending, acknowledge,
  discard_observer,
}
use roost_skill.Outbox.Identity.{find_entry-id, same_id_sound}
use roost_skill.Outbox.Index.{IsIndexed, put-IsIndexed, drop-IsIndexed}

module _ {S : Type 0} where
  abbrev pub IsConsistent : Outbox S → Type 0
  IsConsistent box = IsIndexed box.pending box.stream_pending

  note-IsConsistent :
      (t : ℕ) (box : Outbox S) → IsConsistent box → IsConsistent (note_created_at t box)
  unfolding note_created_at
  note-IsConsistent t box v = if_both {A = Outbox S} IsConsistent _ v v

  note_all-IsConsistent :
      (es : List Entry) (box : Outbox S) → IsConsistent box → IsConsistent (note_all es box)
  unfolding note_all
  note_all-IsConsistent [] box v = v
  note_all-IsConsistent (e ∷ es) box v =
      note_all-IsConsistent es (note_created_at e.created_at box)
        (note-IsConsistent e.created_at box v)

  pub add_pending-IsConsistent :
      (new : Entry) (box : Outbox S)
      → find_entry (packet_id new.packet) box.pending ≡ none
      → IsConsistent box
      → IsConsistent (add_pending (packet_id new.packet) new box)
  unfolding add_pending
  add_pending-IsConsistent new box fresh v =
      note-IsConsistent new.created_at _ (put-IsIndexed new box.pending box.stream_pending fresh v)

  note_removal-IsConsistent :
      (t : ℕ) (box : Outbox S) → IsConsistent box → IsConsistent (note_removal t box)
  unfolding note_removal recompute_oldest
  note_removal-IsConsistent t box v =
      if_both {A = Outbox S} IsConsistent _
        (note_all-IsConsistent box.pending (record box { oldest_created_at = 0 }) v) v

  remove_entry-IsConsistent :
      (acknowledged : Bool) (e : Entry) (box : Outbox S)
      → find_entry (packet_id e.packet) box.pending ≡ some e
      → IsConsistent box
      → IsConsistent (remove_entry (packet_id e.packet) acknowledged e box)
  unfolding remove_entry take_out
  remove_entry-IsConsistent acknowledged e box found v =
      note_removal-IsConsistent e.created_at (take_out (packet_id e.packet) e box)
        (drop-IsIndexed (packet_id e.packet) box.pending box.stream_pending e found v)

  remove_pending_of-IsConsistent :
      (i : PendingId) (acknowledged : Bool) (o : Option Entry) (box : Outbox S)
      → find_entry i box.pending ≡ o
      → IsConsistent box
      → IsConsistent (remove_pending_of i acknowledged o box)
  unfolding remove_pending_of
  remove_pending_of-IsConsistent i acknowledged none box found v = v
  remove_pending_of-IsConsistent i acknowledged (some e) box found v =
      let same = same_id_sound (packet_id e.packet) i (find_entry-id i box.pending found) in
      subst (λ j. IsConsistent (remove_entry j acknowledged e box)) same
        (remove_entry-IsConsistent acknowledged e box
          (ap (λ j. find_entry j box.pending) same ∙ found) v)

  remove_pending-IsConsistent :
      (i : PendingId) (acknowledged : Bool) (box : Outbox S)
      → IsConsistent box
      → IsConsistent (remove_pending i acknowledged box)
  unfolding remove_pending
  remove_pending-IsConsistent i acknowledged box v =
      remove_pending_of-IsConsistent i acknowledged _ box refl v

  remove_all-IsConsistent :
      (is : List PendingId) (acknowledged : Bool) (box : Outbox S)
      → IsConsistent box
      → IsConsistent (remove_all is acknowledged box)
  unfolding remove_all
  remove_all-IsConsistent [] acknowledged box v = v
  remove_all-IsConsistent (i ∷ is) acknowledged box v =
      remove_all-IsConsistent is acknowledged (remove_pending i acknowledged box)
        (remove_pending-IsConsistent i acknowledged box v)

  deleted-IsConsistent :
      (w : S × Bool) (box : Outbox S) (next : Outbox S → Outbox S × Option Error)
      → ((d : S) → IsConsistent (next (record box { disk = d })).0)
      → IsConsistent box
      → IsConsistent (deleted w box next).0
  deleted-IsConsistent (d, true) box next h v = h d
  deleted-IsConsistent (d, false) box next h v = v

  delete_each-IsConsistent :
      (is : List PendingId) (acknowledged : Bool) (box : Outbox S)
      → IsConsistent box
      → IsConsistent (delete_each is acknowledged box).0
  unfolding delete_each
  delete_each-IsConsistent [] acknowledged box v = v
  delete_each-IsConsistent (i ∷ is) acknowledged box v =
      deleted-IsConsistent (delete_stored box.store i box.disk) box
        (λ b. delete_each is acknowledged (remove_pending i acknowledged b))
        (λ d.
          delete_each-IsConsistent is acknowledged
            (remove_pending i acknowledged (record box { disk = d }))
            (remove_pending-IsConsistent i acknowledged (record box { disk = d }) v))
        v

  delete_by-IsConsistent :
      (batch : Option (List PendingId → S → S × Bool)) (is : List PendingId) (acknowledged : Bool)
      (box : Outbox S)
      → IsConsistent box
      → IsConsistent (delete_by batch is acknowledged box).0
  delete_by-IsConsistent none is acknowledged box v = delete_each-IsConsistent is acknowledged box v
  delete_by-IsConsistent (some batch) is acknowledged box v =
      deleted-IsConsistent (batch is box.disk) box (λ b. (remove_all is acknowledged b, none))
        (λ d. remove_all-IsConsistent is acknowledged (record box { disk = d }) v) v

  delete_pending-IsConsistent :
      (is : List PendingId) (acknowledged : Bool) (box : Outbox S)
      → IsConsistent box
      → IsConsistent (delete_pending is acknowledged box).0
  unfolding delete_pending
  delete_pending-IsConsistent [] acknowledged box v = v
  delete_pending-IsConsistent (i ∷ is) acknowledged box v =
      delete_by-IsConsistent (batch_deleter box.store) (i ∷ is) acknowledged box v

  -- Acknowledge keeps the index by stream in agreement with the pending packets: the same
  -- identities, and as many per stream. It does so when the store fails halfway, too.
  pub acknowledge-IsConsistent :
      (key : StreamId) (sequence : ℕ) (box : Outbox S)
      → IsConsistent box
      → IsConsistent (acknowledge key sequence box).0
  unfolding acknowledge
  acknowledge-IsConsistent key sequence box v = delete_pending-IsConsistent _ true box v

  -- DiscardObserver keeps the index by stream in agreement with the pending packets, and so it does
  -- when the store fails halfway.
  pub discard_observer-IsConsistent :
      (observer : ℕ) (box : Outbox S)
      → IsConsistent box
      → IsConsistent (discard_observer observer box).0
  unfolding discard_observer
  discard_observer-IsConsistent observer box v = delete_pending-IsConsistent _ false box v

  pub after_store-IsConsistent :
      (w : S × Bool) (box : Outbox S) (f : Outbox S → Outbox S)
      → ((d : S) → IsConsistent (f (record box { disk = d })))
      → IsConsistent box
      → IsConsistent (after_store w box f).0
  after_store-IsConsistent (d, true) box f h v = h d
  after_store-IsConsistent (d, false) box f h v = v

  pub unless-IsConsistent :
      (o : Option Error) (box : Outbox S) (next : Outbox S × Option Error)
      → IsConsistent next.0
      → IsConsistent box
      → IsConsistent (unless o box next).0
  unless-IsConsistent none box next h v = h
  unless-IsConsistent (some e) box next h v = v

  put_sized-IsConsistent :
      (size : Option ℤ) (p : Packet) (now : ℕ) (box : Outbox S)
      → find_entry (packet_id p) box.pending ≡ none
      → IsConsistent box
      → IsConsistent (put_sized size p now box).0
  unfolding put_sized
  put_sized-IsConsistent none p now box fresh v = v
  put_sized-IsConsistent (some bytes) p now box fresh v =
      unless-IsConsistent (capacity_error now (some p) bytes box) box _
        (after_store-IsConsistent (persist box.store (new_record p now) box.disk) box
          (add_pending (packet_id p) (new_entry p now bytes))
          (λ d. add_pending-IsConsistent (new_entry p now bytes) (record box { disk = d }) fresh v)
          v)
        v

  put_absent-IsConsistent :
      (o : Option Entry) (box : Outbox S) (next : Outbox S × Option Error)
      → (o ≡ none → IsConsistent next.0)
      → IsConsistent box
      → IsConsistent (put_absent o box next).0
  put_absent-IsConsistent none box next h v = h refl
  put_absent-IsConsistent (some e) box next h v = v

  -- Put keeps the index by stream in agreement with the pending packets, and leaves them so on each
  -- of its errors.
  pub put-IsConsistent :
      (size_of : Packet → Option ℤ) (p : Packet) (now : ℕ) (box : Outbox S)
      → IsConsistent box
      → IsConsistent (put size_of p now box).0
  unfolding put
  put-IsConsistent size_of p now box v =
      if_both {A = Outbox S × Option Error} (λ r. IsConsistent (r.0)) (not (is_valid p)) v
        (put_absent-IsConsistent (find_entry (packet_id p) box.pending) box
          (put_sized (size_of p) p now box)
          (λ fresh. put_sized-IsConsistent (size_of p) p now box fresh v) v)
