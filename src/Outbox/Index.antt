-- ===== src/Outbox/Index.antt =====
-- skillsync/outbox.go: the index by stream agrees with the map of pending packets.
use roost_skill.Common.{
  ℕ, suc, ◌+◌, Bool, true, false, if◌then◌else◌, ◌&&◌, List, [], ◌∷◌, Option, none, some, ◌≡◌, refl,
  sym, ap, ◌∙◌, arith, ◌==◌, inl, inr, Bool-cases, length, if_both, ==_iff,
}
use roost_skill.Common.Maps.{
  Map, lookup, insert, erase, KeysUnique, lookup-insert, lookup-erase, insert-KeysUnique,
  erase-KeysUnique, erase_absent,
}
use roost_skill.Outbox.Packets.{
  StreamId, PendingId, Entry, packet_id, stream_id, same_stream, same_id, find_entry, put_entry,
  drop_entry,
}
use roost_skill.Outbox.{at_stream}
use roost_skill.Outbox.Batch.{count_on}
use roost_skill.Outbox.Identity.{
  EntriesUnique, find_entry-put_entry, put_entry-EntriesUnique, count_on-put_entry,
  find_entry-drop_entry, drop_entry-EntriesUnique, find_entry-id, count_on-drop_entry,
  same_stream_sound, same_stream_sym, same_id_sound,
}

length-insert {ℓ} :
    {V : Type ℓ} (k : ℕ) (v : V) (m : Map V)
    → lookup k m ≡ none
    → length (insert k v m) ≡ suc (length m)
unfolding lookup insert
length-insert k v [] e = refl
length-insert k v ((j, w) ∷ m) e = ground (arith, length-insert k v m)

length-erase {ℓ} :
    {V : Type ℓ} (k : ℕ) (v : V) (m : Map V)
    → KeysUnique m
    → lookup k m ≡ some v
    → suc (length (erase k m)) ≡ length m
unfolding lookup erase
length-erase k v [] u e = cc
length-erase k v ((j, w) ∷ m) u e = ground (arith, length-erase k v m, erase_absent k m)

abbrev pub id_of : StreamId → ℕ → PendingId
id_of s q = record { stream = s; sequence = q }

abbrev pub indexed_id : PendingId → Option Entry → Option PendingId
indexed_id i none = none
indexed_id i (some e) = some i

-- The stream index against the pending entries: it lists each identity under its stream and
-- sequence, none other, and as many for a stream as are pending.
pub record IsIndexed (pending : List Entry) (index : StreamId → Map PendingId) : Type 0 where
  pub unique : EntriesUnique pending
  pub indexed :
      (s : StreamId) (q : ℕ)
      → lookup q (index s) ≡ indexed_id (id_of s q) (find_entry (id_of s q) pending)
  pub listed : (s : StreamId) → KeysUnique (index s)
  pub counted : (s : StreamId) → length (index s) ≡ count_on s pending

-- A new entry in a stream's map, and among the pending ones.
insert_indexed :
    (id : PendingId) (m : Map PendingId) (s : StreamId) (q : ℕ) (o : Option Entry) (new : Entry)
    (b : Bool)
    → same_stream id.stream s ≡ b
    → lookup q m ≡ indexed_id (id_of s q) o
    → lookup q (if b then insert id.sequence id m else m)
      ≡ indexed_id (id_of s q) (if b && id.sequence == q then some new else o)
insert_indexed id m s q o new false same h = h
insert_indexed id m s q o new true same h =
    lookup-insert q id.sequence id m ∙ (elim (Bool-cases (id.sequence == q)) [
      | inl hit ↦ rw hit (λ i. some (record {
        stream = same_stream_sound id.stream s same i;
        sequence = (==_iff id.sequence q).0 hit i;
      }))
      | inr miss ↦ rw miss h
    ])

-- An entry out of a stream's map, and out of the pending ones.
erase_indexed :
    (id : PendingId) (m : Map PendingId) (s : StreamId) (q : ℕ) (o : Option Entry) (b : Bool)
    → lookup q m ≡ indexed_id (id_of s q) o
    → lookup q (if b then erase id.sequence m else m)
      ≡ indexed_id (id_of s q) (if b && id.sequence == q then none else o)
erase_indexed id m s q o false h = h
erase_indexed id m s q o true h =
    lookup-erase q id.sequence m
    ∙ (elim (Bool-cases (id.sequence == q)) [ inl hit ↦ rw hit refl | inr miss ↦ rw miss h ])

put_indexed :
    (new : Entry) (pending : List Entry) (index : StreamId → Map PendingId) (s : StreamId) (q : ℕ)
    → lookup q (index s) ≡ indexed_id (id_of s q) (find_entry (id_of s q) pending)
    → lookup q (
        at_stream
          (stream_id new.packet)
          (insert new.packet.sequence (packet_id new.packet))
          index
          s)
      ≡ indexed_id
          (id_of s q)
          (find_entry (id_of s q) (put_entry (packet_id new.packet) new pending))
unfolding same_id
put_indexed new pending index s q h =
    rw (find_entry-put_entry (id_of s q) new pending, same_stream_sym s (stream_id new.packet))
      (insert_indexed (packet_id new.packet) (index s) s q (find_entry (id_of s q) pending) new
        (same_stream (stream_id new.packet) s) refl h)

drop_indexed :
    (id : PendingId) (pending : List Entry) (index : StreamId → Map PendingId) (s : StreamId)
    (q : ℕ)
    → EntriesUnique pending
    → lookup q (index s) ≡ indexed_id (id_of s q) (find_entry (id_of s q) pending)
    → lookup q (at_stream id.stream (erase id.sequence) index s)
      ≡ indexed_id (id_of s q) (find_entry (id_of s q) (drop_entry id pending))
unfolding same_id
drop_indexed id pending index s q u h =
    rw (find_entry-drop_entry id (id_of s q) pending u, same_stream_sym s id.stream)
      (erase_indexed id (index s) s q (find_entry (id_of s q) pending) (same_stream id.stream s) h)

-- The size of a stream's map after an insertion of a new key.
insert_counted :
    (id : PendingId) (m : Map PendingId) (n : ℕ) (b : Bool)
    → (b ≡ true → lookup id.sequence m ≡ none)
    → length m ≡ n
    → length (if b then insert id.sequence id m else m) ≡ (if b then 1 + n else n)
insert_counted id m n false fresh e = e
insert_counted id m n true fresh e = omega (arith, length-insert id.sequence id m (fresh refl), e)

put_counted :
    (new : Entry) (pending : List Entry) (index : StreamId → Map PendingId) (s : StreamId)
    → find_entry (packet_id new.packet) pending ≡ none
    → IsIndexed pending index
    → length (
        at_stream
          (stream_id new.packet)
          (insert new.packet.sequence (packet_id new.packet))
          index
          s)
      ≡ count_on s (put_entry (packet_id new.packet) new pending)
put_counted new pending index s fresh v =
    rw (count_on-put_entry s new pending fresh, same_stream_sym s (stream_id new.packet))
      (insert_counted (packet_id new.packet) (index s) (count_on s pending)
        (same_stream (stream_id new.packet) s)
        (λ same.
          ap (λ k. lookup new.packet.sequence (index k))
            (sym (same_stream_sound (stream_id new.packet) s same))
          ∙ v.indexed (stream_id new.packet) new.packet.sequence
          ∙ ap (indexed_id (packet_id new.packet)) fresh)
        (v.counted s))

pub put-IsIndexed :
    (new : Entry) (pending : List Entry) (index : StreamId → Map PendingId)
    → find_entry (packet_id new.packet) pending ≡ none
    → IsIndexed pending index
    → IsIndexed
        (put_entry (packet_id new.packet) new pending)
        (at_stream (stream_id new.packet) (insert new.packet.sequence (packet_id new.packet)) index)
put-IsIndexed new pending index fresh v = record {
  unique = put_entry-EntriesUnique new pending fresh v.unique;
  indexed = λ s q. put_indexed new pending index s q (v.indexed s q);
  listed = λ s.
      if_both KeysUnique (same_stream s (stream_id new.packet))
        (insert-KeysUnique new.packet.sequence (packet_id new.packet) (index s) (v.listed s))
        (v.listed s);
  counted = λ s. put_counted new pending index s fresh v;
}

-- The size of a stream's map after the removal of a key that it has.
erase_counted :
    (q : ℕ) (id : PendingId) (m : Map PendingId) (b : Bool) (n rest : ℕ)
    → KeysUnique m
    → (b ≡ true → lookup q m ≡ some id)
    → length m ≡ n
    → n ≡ (if b then 1 + rest else rest)
    → length (if b then erase q m else m) ≡ rest
erase_counted q id m false n rest u found e f = e ∙ f
erase_counted q id m true n rest u found e f =
    omega (arith, length-erase q id m u (found refl), e, f)

drop_counted :
    (id : PendingId) (pending : List Entry) (index : StreamId → Map PendingId) (s : StreamId)
    (e : Entry)
    → find_entry id pending ≡ some e
    → IsIndexed pending index
    → length (at_stream id.stream (erase id.sequence) index s) ≡ count_on s (drop_entry id pending)
drop_counted id pending index s e found v = rw (same_stream_sym s id.stream) (
    erase_counted id.sequence id (index s) (same_stream id.stream s) (count_on s pending)
      (count_on s (drop_entry id pending)) (v.listed s)
      (λ same.
        ap (λ k. lookup id.sequence (index k)) (sym (same_stream_sound id.stream s same))
        ∙ v.indexed id.stream id.sequence
        ∙ ap (indexed_id id) found)
      (v.counted s)
      (count_on-drop_entry s id pending found
        ∙ ap
            (λ k.
              if same_stream k s
              then 1 + count_on s (drop_entry id pending)
              else count_on s (drop_entry id pending))
            (ap (λ j. j.stream)
              (same_id_sound (packet_id e.packet) id (find_entry-id id pending found)))))

pub drop-IsIndexed :
    (id : PendingId) (pending : List Entry) (index : StreamId → Map PendingId) (e : Entry)
    → find_entry id pending ≡ some e
    → IsIndexed pending index
    → IsIndexed (drop_entry id pending) (at_stream id.stream (erase id.sequence) index)
drop-IsIndexed id pending index e found v = record {
  unique = drop_entry-EntriesUnique id pending v.unique;
  indexed = λ s q. drop_indexed id pending index s q v.unique (v.indexed s q);
  listed = λ s.
      if_both KeysUnique (same_stream s id.stream)
        (erase-KeysUnique id.sequence (index s) (v.listed s)) (v.listed s);
  counted = λ s. drop_counted id pending index s e found v;
}
