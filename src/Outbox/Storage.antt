-- ===== src/Outbox/Storage.antt =====
-- skillsync/outbox.go: the interfaces of the outbox stores. A store is code outside the package: its
-- operations are parameters on its state, and answer whether they succeeded.
use roost_skill.Common.{ℕ, Bool, true, false, List, [], ◌∷◌, Option, none, some, map}
use roost_skill.Outbox.Packets.{Packet, PendingId, OutboxRecord, new_record}

-- RecordOutboxStore.
pub record RecordStore (S : Type 0) : Type 0 where
  pub load_records : S → Option (List OutboxRecord)
  pub put_record : OutboxRecord → S → S × Bool

-- OutboxStore; a later field is `some` if the store has that interface too.
pub record Store (S : Type 0) : Type 0 where
  pub load : S → Option (List Packet)
  pub put : Packet → S → S × Bool
  pub delete : PendingId → S → S × Bool
  pub records : Option (RecordStore S)
  pub put_records : Option (List OutboxRecord → S → S × Bool)
  pub delete_batch : Option (List PendingId → S → S × Bool)

abbrev dated : ℕ → Option (List Packet) → Option (List OutboxRecord)
dated now none = none
dated now (some ps) = some (map (λ p. new_record p now) ps)

module _ {S : Type 0} where
  abbrev pub write_record :
      Option (RecordStore S) → (Packet → S → S × Bool) → OutboxRecord → S → S × Bool
  write_record none put r disk = put r.packet disk
  write_record (some records) put r disk = records.put_record r disk

  unfoldable pub persist : Option (Store S) → OutboxRecord → S → S × Bool
  persist none r disk = (disk, true)
  persist (some store) r disk = write_record store.records store.put r disk

  -- One operation after the other, up to the first that fails.
  abbrev pub then_if : S × Bool → (S → S × Bool) → S × Bool
  then_if (disk, true) next = next disk
  then_if (disk, false) next = (disk, false)

  unfoldable pub persist_each : Option (Store S) → List OutboxRecord → S → S × Bool
  unfolding persist
  persist_each store [] disk = (disk, true)
  persist_each store (r ∷ rs) disk = then_if (persist store r disk) (persist_each store rs)

  abbrev persist_records :
      Option (List OutboxRecord → S → S × Bool) → Store S → List OutboxRecord → S → S × Bool
  persist_records none store rs disk = persist_each (some store) rs disk
  persist_records (some put_records) store rs disk = put_records rs disk

  unfoldable pub persist_all : Option (Store S) → List OutboxRecord → S → S × Bool
  unfolding persist_each
  persist_all none rs disk = (disk, true)
  persist_all (some store) rs disk = persist_records store.put_records store rs disk

  unfoldable pub delete_stored : Option (Store S) → PendingId → S → S × Bool
  delete_stored none id disk = (disk, true)
  delete_stored (some store) id disk = store.delete id disk

  -- loadOutboxRecords; `none` is an error.
  abbrev load_by : Option (RecordStore S) → Store S → ℕ → S → Option (List OutboxRecord)
  load_by none store now disk = dated now (store.load disk)
  load_by (some records) store now disk = records.load_records disk

  unfoldable pub load_outbox_records : Store S → ℕ → S → Option (List OutboxRecord)
  load_outbox_records store now disk = load_by store.records store now disk
