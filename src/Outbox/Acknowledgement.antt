-- ===== src/Outbox/Acknowledgement.antt =====
-- skillsync/outbox.go: which packets Acknowledge takes out.
use roost_skill.Common.{
  any-sort_by, sort_by, ℕ, Bool, true, false, if◌then◌else◌, ◌&&◌, List, [], ◌∷◌, Option, none,
  some, ◌≡◌, refl, sym, ap, ◌∙◌, arith, if_both, any, All, filter, map, leb, ◌==◌,
}
use roost_skill.Common.Maps.{Map, lookup, KeysUnique}
use roost_skill.Outbox.Packets.{
  StreamId, PendingId, Entry, same_id, same_stream, find_entry, drop_entry,
}
use roost_skill.Outbox.Storage.{delete_stored}
use roost_skill.Outbox.{
  Outbox, Error, note_created_at, note_all, recompute_oldest, note_removal, take_out, remove_entry,
  remove_pending, remove_pending_of,
}
use roost_skill.Outbox.Removal.{
  sequence_less, remove_all, delete_each, deleted, delete_by, batch_deleter, delete_pending,
  acknowledge,
}
use roost_skill.Outbox.Identity.{
  EntriesUnique, find_entry-drop_entry, drop_entry-EntriesUnique, same_stream_sound,
}
use roost_skill.Outbox.Index.{id_of, indexed_id}
use roost_skill.Outbox.Batches.{note-pending}
use roost_skill.Outbox.Consistency.{IsConsistent}

drop_all : List PendingId → List Entry → List Entry
drop_all [] es = es
drop_all (i ∷ is) es = drop_all is (drop_entry i es)

find_entry-drop_all :
    (j : PendingId) (is : List PendingId) (es : List Entry)
    → EntriesUnique es
    → find_entry j (drop_all is es) ≡ (if any (λ i. same_id i j) is then none else find_entry j es)
unfolding drop_all
find_entry-drop_all j [] es u = refl
find_entry-drop_all j (i ∷ is) es u = ground (
  arith,
  find_entry-drop_all j is (drop_entry i es) (drop_entry-EntriesUnique i es u),
  find_entry-drop_entry i j es u,
)

drop_entry_absent :
    (i : PendingId) (es : List Entry) → find_entry i es ≡ none → drop_entry i es ≡ es
unfolding find_entry drop_entry
drop_entry_absent i [] e = refl
drop_entry_absent i (d ∷ es) e = ground (arith, drop_entry_absent i es)

abbrev is_listed : Option PendingId → Bool
is_listed none = false
is_listed (some i) = true

-- Each entry of a stream's map is the identity of that stream under its sequence.
abbrev ListsOwn : StreamId → Map PendingId → Type 0
ListsOwn key m = All (λ e. e.1 ≡ id_of key e.0) m

lists_own :
    (key : StreamId) (m : Map PendingId)
    → KeysUnique m
    → ((q : ℕ) (i : PendingId) → lookup q m ≡ some i → i ≡ id_of key q)
    → ListsOwn key m
unfolding lookup
lists_own key [] u h = tt
lists_own key ((k, i) ∷ m) u h =
    (h k i (ground arith), lists_own key m u.1 (λ q j e. h q j (later q j e)))
  where
    later : (q : ℕ) (j : PendingId) → lookup q m ≡ some j → lookup q ((k, i) ∷ m) ≡ some j
    later q j e = ground (arith, u)

same_own :
    (key s : StreamId) (k q : ℕ) (i : PendingId)
    → i ≡ id_of key k
    → same_id i (id_of s q) ≡ (same_stream key s && k == q)
unfolding same_id
same_own key s k q i e = ap (λ j. same_id j (id_of s q)) e

any_acknowledged :
    (key : StreamId) (sequence : ℕ) (s : StreamId) (q : ℕ) (m : Map PendingId)
    → ListsOwn key m
    → any (λ i. same_id i (id_of s q)) (map (λ e. e.1) (filter (λ e. leb e.0 sequence) m))
      ≡ (same_stream key s && leb q sequence && is_listed (lookup q m))
unfolding lookup
any_acknowledged key sequence s q [] own = ground arith
any_acknowledged key sequence s q ((k, i) ∷ m) own =
    ground (arith, any_acknowledged key sequence s q m own.1, same_own key s k q i own.0)

owner :
    (key : StreamId) (k : ℕ) (i : PendingId) (o : Option PendingId) (found : Option Entry)
    → o ≡ indexed_id (id_of key k) found
    → o ≡ some i
    → i ≡ id_of key k
owner key k i o none e f = cc
owner key k i o (some d) e f = cc

-- An identity that the stream's map does not list is not pending.
keep_listed :
    (same low : Bool) (listed : Option PendingId) (id : PendingId) (found : Option Entry)
    → (same ≡ true → listed ≡ indexed_id id found)
    → (if same && low && is_listed listed then none else found)
      ≡ (if same && low then none else found)
keep_listed false low listed id found h = refl
keep_listed true false listed id found h = refl
keep_listed true true none id none h = refl
keep_listed true true none id (some d) h = cc (h refl)
keep_listed true true (some i) id found h = refl

module _ {S : Type 0} where
  note_all-pending : (es : List Entry) (box : Outbox S) → (note_all es box).pending ≡ box.pending
  unfolding note_all
  note_all-pending [] box = refl
  note_all-pending (e ∷ es) box =
      note_all-pending es (note_created_at e.created_at box) ∙ note-pending e.created_at box

  note_removal-pending : (t : ℕ) (box : Outbox S) → (note_removal t box).pending ≡ box.pending
  unfolding note_removal recompute_oldest
  note_removal-pending t box =
      if_both {A = Outbox S} (λ b. b.pending ≡ box.pending) _
        (note_all-pending box.pending (record box { oldest_created_at = 0 })) refl

  remove_pending_of-pending :
      (i : PendingId) (acknowledged : Bool) (o : Option Entry) (box : Outbox S)
      → find_entry i box.pending ≡ o
      → (remove_pending_of i acknowledged o box).pending ≡ drop_entry i box.pending
  unfolding remove_pending_of remove_entry take_out
  remove_pending_of-pending i acknowledged none box e = sym (drop_entry_absent i box.pending e)
  remove_pending_of-pending i acknowledged (some d) box e =
      note_removal-pending d.created_at (take_out i d box)

  remove_pending-pending :
      (i : PendingId) (acknowledged : Bool) (box : Outbox S)
      → (remove_pending i acknowledged box).pending ≡ drop_entry i box.pending
  unfolding remove_pending
  remove_pending-pending i acknowledged box = remove_pending_of-pending i acknowledged _ box refl

  remove_all-pending :
      (is : List PendingId) (acknowledged : Bool) (box : Outbox S)
      → (remove_all is acknowledged box).pending ≡ drop_all is box.pending
  unfolding remove_all drop_all
  remove_all-pending [] acknowledged box = refl
  remove_all-pending (i ∷ is) acknowledged box =
      remove_all-pending is acknowledged (remove_pending i acknowledged box)
      ∙ ap (drop_all is) (remove_pending-pending i acknowledged box)

  deleted-pending :
      (w : S × Bool) (box : Outbox S) (next : Outbox S → Outbox S × Option Error) (es : List Entry)
      → ((d : S)
          → (next (record box { disk = d })).1 ≡ none
          → (next (record box { disk = d })).0.pending ≡ es)
      → (deleted w box next).1 ≡ none
      → (deleted w box next).0.pending ≡ es
  deleted-pending (d, true) box next es h e = h d e
  deleted-pending (d, false) box next es h e = cc

  delete_each-pending :
      (is : List PendingId) (acknowledged : Bool) (box : Outbox S)
      → (delete_each is acknowledged box).1 ≡ none
      → (delete_each is acknowledged box).0.pending ≡ drop_all is box.pending
  unfolding delete_each drop_all
  delete_each-pending [] acknowledged box e = refl
  delete_each-pending (i ∷ is) acknowledged box e =
      deleted-pending (delete_stored box.store i box.disk) box
        (λ b. delete_each is acknowledged (remove_pending i acknowledged b)) _
        (λ d f.
          delete_each-pending is acknowledged
            (remove_pending i acknowledged (record box { disk = d })) f
          ∙ ap (drop_all is) (remove_pending-pending i acknowledged (record box { disk = d })))
        e

  delete_by-pending :
      (batch : Option (List PendingId → S → S × Bool)) (is : List PendingId) (acknowledged : Bool)
      (box : Outbox S)
      → (delete_by batch is acknowledged box).1 ≡ none
      → (delete_by batch is acknowledged box).0.pending ≡ drop_all is box.pending
  delete_by-pending none is acknowledged box e = delete_each-pending is acknowledged box e
  delete_by-pending (some batch) is acknowledged box e =
      deleted-pending (batch is box.disk) box (λ b. (remove_all is acknowledged b, none)) _
        (λ d f. remove_all-pending is acknowledged (record box { disk = d })) e

  delete_pending-pending :
      (is : List PendingId) (acknowledged : Bool) (box : Outbox S)
      → (delete_pending is acknowledged box).1 ≡ none
      → (delete_pending is acknowledged box).0.pending ≡ drop_all is box.pending
  unfolding delete_pending drop_all
  delete_pending-pending [] acknowledged box e = refl
  delete_pending-pending (i ∷ is) acknowledged box e =
      delete_by-pending (batch_deleter box.store) (i ∷ is) acknowledged box e

  -- An acknowledgement of a box whose index agrees with its packets, if it succeeds, takes out the pending packets of its stream, observer and epoch
  -- up to its sequence number, and none other: each identity is pending as before, or it is one of
  -- those and is not pending any more.
  pub acknowledge_lem :
      (key : StreamId) (sequence : ℕ) (box : Outbox S) (s : StreamId) (q : ℕ)
      → IsConsistent box
      → (acknowledge key sequence box).1 ≡ none
      → find_entry (id_of s q) (acknowledge key sequence box).0.pending
        ≡ (if same_stream key s && leb q sequence then none else find_entry (id_of s q) box.pending)
  unfolding acknowledge
  acknowledge_lem key sequence box s q v e =
      let ids = map (λ d. d.1) (filter (λ d. leb d.0 sequence) (box.stream_pending key)) in
      let sorted = sort_by sequence_less ids in
      ap (find_entry (id_of s q)) (delete_pending-pending sorted true box e)
      ∙ find_entry-drop_all (id_of s q) sorted box.pending v.unique
      ∙ ap (λ b. if b then none else find_entry (id_of s q) box.pending)
          (any-sort_by sequence_less (λ i. same_id i (id_of s q)) ids
            ∙ any_acknowledged key sequence s q (box.stream_pending key) (
                lists_own key (box.stream_pending key) (v.listed key) (λ k i f.
                  owner key k i (lookup k (box.stream_pending key))
                    (find_entry (id_of key k) box.pending) (v.indexed key k) f)))
      ∙ keep_listed (same_stream key s) (leb q sequence) (lookup q (box.stream_pending key))
          (id_of s q) (find_entry (id_of s q) box.pending)
          (λ same.
            ap (λ t. lookup q (box.stream_pending t)) (same_stream_sound key s same)
            ∙ v.indexed s q)
