-- ===== src/Outbox/Removal.antt =====
-- skillsync/outbox.go: Acknowledge and DiscardObserver.
use text.Mathlib.Text.{◌==◌ as str_eq}
use roost_skill.Common.{
  sort_by, text_less, ℕ, Bool, true, false, if◌then◌else◌, not, List, [], ◌∷◌, Option, none, some,
  map, ◌==◌, ltb, leb, filter,
}
use roost_skill.Common.Int.{ltb_ℤ, eqb_ℤ}
use roost_skill.Outbox.{Outbox, Error, store_failed, remove_pending}
use roost_skill.Outbox.Packets.{PendingId, StreamId, packet_id}
use roost_skill.Outbox.Storage.{Store, delete_stored}

abbrev pub sequence_less : PendingId → PendingId → Bool
sequence_less i j = ltb i.sequence j.sequence

-- The comparison of DiscardObserver.
unfoldable pub discard_less : PendingId → PendingId → Bool
discard_less i j =
    if not (str_eq i.stream.topic j.stream.topic)
    then text_less i.stream.topic j.stream.topic
    else if not (eqb_ℤ i.stream.key j.stream.key)
    then ltb_ℤ i.stream.key j.stream.key
    else ltb i.sequence j.sequence

module _ {S : Type 0} where
  unfoldable pub remove_all : List PendingId → Bool → Outbox S → Outbox S
  unfolding remove_pending
  remove_all [] acknowledged box = box
  remove_all (i ∷ is) acknowledged box =
      remove_all is acknowledged (remove_pending i acknowledged box)

  -- The store has deleted, and the work goes on, or it has not, which ends it.
  abbrev pub deleted :
      S × Bool → Outbox S → (Outbox S → Outbox S × Option Error) → Outbox S × Option Error
  deleted (disk, true) box next = next (record box { disk = disk })
  deleted (disk, false) box next = (record box { disk = disk }, some store_failed)

  -- The loop that deletes one id after the other, up to the first that the store does not delete.
  unfoldable pub delete_each : List PendingId → Bool → Outbox S → Outbox S × Option Error
  unfolding delete_stored remove_pending
  delete_each [] acknowledged box = (box, none)
  delete_each (i ∷ is) acknowledged box =
      deleted (delete_stored box.store i box.disk) box
        (λ b. delete_each is acknowledged (remove_pending i acknowledged b))

  abbrev pub batch_deleter : Option (Store S) → Option (List PendingId → S → S × Bool)
  batch_deleter none = none
  batch_deleter (some store) = store.delete_batch

  abbrev pub delete_by :
      Option (List PendingId → S → S × Bool)
      → List PendingId
      → Bool
      → Outbox S
      → Outbox S × Option Error
  delete_by none is acknowledged box = delete_each is acknowledged box
  delete_by (some batch) is acknowledged box =
      deleted (batch is box.disk) box (λ b. (remove_all is acknowledged b, none))

  unfoldable pub delete_pending : List PendingId → Bool → Outbox S → Outbox S × Option Error
  unfolding remove_all delete_each
  delete_pending [] acknowledged box = (box, none)
  delete_pending (i ∷ is) acknowledged box =
      delete_by (batch_deleter box.store) (i ∷ is) acknowledged box

  unfoldable pub acknowledge : StreamId → ℕ → Outbox S → Outbox S × Option Error
  unfolding sort_by delete_pending
  acknowledge key sequence box =
      delete_pending
        (sort_by sequence_less
          (map (λ e. e.1) (filter (λ e. leb e.0 sequence) (box.stream_pending key))))
        true box

  unfoldable pub discard_observer : ℕ → Outbox S → Outbox S × Option Error
  unfolding sort_by discard_less delete_pending
  discard_observer observer box =
      delete_pending
        (sort_by discard_less
          (filter (λ i. i.stream.observer == observer) (map (λ e. packet_id e.packet) box.pending)))
        false box
