-- ===== src/Outbox/Batches.antt =====
-- skillsync/outbox.go: PutBatch and Reconcile keep the index and the pending packets in agreement.
use roost_skill.Common.{
  ℕ, Bool, false, if◌then◌else◌, not, ◌++◌, List, [], ◌∷◌, Option, none, some, ◌≡◌, refl, sym, ◌∙◌,
  arith, if_both, subst,
}
use roost_skill.Common.Int.{ℤ, pos}
use roost_skill.Outbox.Packets.{
  PendingId, Entry, Packet, packet_id, same_id, find_entry, put_entry, new_entry, is_valid,
}
use roost_skill.Outbox.Storage.{persist_all}
use roost_skill.Outbox.{Outbox, Error, record_invalid, add_pending, note_created_at, capacity_error}
use roost_skill.Outbox.Batch.{
  Batch, Gathered, gathered, rejected, collect_new, and_then, gather_one, gather, add_all, commit,
  commit_gathered, put_batch,
}
use roost_skill.Outbox.Identity.{find_entry-put_entry}
use roost_skill.Outbox.Consistency.{
  IsConsistent, add_pending-IsConsistent, after_store-IsConsistent, unless-IsConsistent,
}

-- Entries that are not pending and differ in identity: each is new to the list that holds the ones
-- before it.
abbrev pub AllNew : List Entry → List Entry → Type 0
AllNew pending [] = Unit
AllNew pending (e ∷ es) =
    (find_entry (packet_id e.packet) pending ≡ none)
    × AllNew (put_entry (packet_id e.packet) e pending) es

AllNew-append :
    (new : Entry) (pending es : List Entry)
    → AllNew pending es
    → find_entry (packet_id new.packet) pending ≡ none
    → find_entry (packet_id new.packet) es ≡ none
    → AllNew pending (es ++ new ∷ [])
unfolding find_entry
AllNew-append new pending [] a f g = (f, tt)
AllNew-append new pending (e ∷ es) a f g =
    let parts = split_find (same_id (packet_id e.packet) (packet_id new.packet)) _ g in
    (
      a.0,
      AllNew-append new (put_entry (packet_id e.packet) e pending) es a.1
          (find_entry-put_entry (packet_id new.packet) e pending ∙ rw parts.0 f) parts.1,
    )
  where
    split_find :
        (b : Bool) (o : Option Entry) → (if b then some e else o) ≡ none → (b ≡ false) × (o ≡ none)
    split_find b o g = ground arith

-- The entries that the loop of PutBatch has collected are all new, if it has not stopped.
abbrev GatheredNew : List Entry → Gathered → Type 0
GatheredNew pending (gathered b) = AllNew pending b.entries
GatheredNew pending (rejected e) = Unit

collect_new-GatheredNew :
    (p : Packet) (now : ℕ) (size : Option ℤ) (o q : Option Entry) (pending : List Entry) (b : Batch)
    → find_entry (packet_id p) pending ≡ o
    → find_entry (packet_id p) b.entries ≡ q
    → AllNew pending b.entries
    → GatheredNew pending (collect_new p now size o q b)
collect_new-GatheredNew p now none none none pending b f g a = tt
collect_new-GatheredNew p now (some bytes) none none pending b f g a =
    AllNew-append (new_entry p now bytes) pending b.entries a f g
collect_new-GatheredNew p now size none (some seen) pending b f g a = a
collect_new-GatheredNew p now size (some e) q pending b f g a = a

gather_one-GatheredNew :
    (size_of : Packet → Option ℤ) (now : ℕ) (pending : List Entry) (p : Packet) (b : Batch)
    → AllNew pending b.entries
    → GatheredNew pending (gather_one size_of now pending p b)
unfolding gather_one
gather_one-GatheredNew size_of now pending p b a =
    if_both (GatheredNew pending) (not (is_valid p)) {x = rejected record_invalid} tt (
      collect_new-GatheredNew p now (size_of p) (find_entry (packet_id p) pending)
        (find_entry (packet_id p) b.entries) pending b refl refl a)

and_then-GatheredNew :
    (pending : List Entry) (g : Gathered) (next : Batch → Gathered)
    → ((c : Batch) → AllNew pending c.entries → GatheredNew pending (next c))
    → GatheredNew pending g
    → GatheredNew pending (and_then g next)
and_then-GatheredNew pending (gathered c) next h a = h c a
and_then-GatheredNew pending (rejected e) next h a = tt

gather-GatheredNew :
    (size_of : Packet → Option ℤ) (now : ℕ) (pending : List Entry) (ps : List Packet) (b : Batch)
    → AllNew pending b.entries
    → GatheredNew pending (gather size_of now pending ps b)
unfolding gather
gather-GatheredNew size_of now pending [] b a = a
gather-GatheredNew size_of now pending (p ∷ ps) b a =
    and_then-GatheredNew pending (gather_one size_of now pending p b)
      (gather size_of now pending ps) (λ c h. gather-GatheredNew size_of now pending ps c h)
      (gather_one-GatheredNew size_of now pending p b a)

module _ {S : Type 0} where
  pub note-pending : (t : ℕ) (box : Outbox S) → (note_created_at t box).pending ≡ box.pending
  unfolding note_created_at
  note-pending t box = if_both {A = Outbox S} (λ b. b.pending ≡ box.pending) _ refl refl

  add_pending-pending :
      (i : PendingId) (e : Entry) (box : Outbox S)
      → (add_pending i e box).pending ≡ put_entry i e box.pending
  unfolding add_pending
  add_pending-pending i e box = note-pending e.created_at _

  add_all-IsConsistent :
      (es : List Entry) (box : Outbox S)
      → AllNew box.pending es
      → IsConsistent box
      → IsConsistent (add_all es box)
  unfolding add_all
  add_all-IsConsistent [] box a v = v
  add_all-IsConsistent (e ∷ es) box a v =
      add_all-IsConsistent es (add_pending (packet_id e.packet) e box)
        (subst (λ l. AllNew l es) (sym (add_pending-pending (packet_id e.packet) e box)) a.1)
        (add_pending-IsConsistent e box a.0 v)

  commit-IsConsistent :
      (b : Batch) (box : Outbox S)
      → AllNew box.pending b.entries
      → IsConsistent box
      → IsConsistent (commit b box).0
  unfolding commit
  commit-IsConsistent b box a v =
      if_both {A = Outbox S × Option Error} (λ r. IsConsistent (r.0)) _ v
        (after_store-IsConsistent (persist_all box.store b.records box.disk) box (add_all b.entries)
          (λ d. add_all-IsConsistent b.entries (record box { disk = d }) a v) v)

  commit_gathered-IsConsistent :
      (g : Gathered) (box : Outbox S)
      → GatheredNew box.pending g
      → IsConsistent box
      → IsConsistent (commit_gathered g box).0
  commit_gathered-IsConsistent (gathered b) box a v = commit-IsConsistent b box a v
  commit_gathered-IsConsistent (rejected e) box a v = v

  -- PutBatch keeps the index by stream in agreement with the pending packets, whatever packets the
  -- batch repeats, and leaves them so on each of its errors.
  pub put_batch-IsConsistent :
      (size_of : Packet → Option ℤ) (ps : List Packet) (now : ℕ) (box : Outbox S)
      → IsConsistent box
      → IsConsistent (put_batch size_of ps now box).0
  unfolding put_batch
  put_batch-IsConsistent size_of ps now box v =
      unless-IsConsistent (capacity_error now none (pos 0) box) box _
        (commit_gathered-IsConsistent _ box
          (gather-GatheredNew size_of now box.pending ps
            (record { bytes = pos 0; records = []; entries = [] }) tt)
          v)
        v
