-- ===== src/Outbox/Identity.antt =====
-- skillsync/outbox.go: the identity of packets, and the map `pending` under its operations.
use text.Mathlib.Text.{◌==◌ as str_eq}
use text.Mathlib.TextEquality.{eq_iff}
use roost_skill.Common.{
  ◌+◌, Bool, true, if◌then◌else◌, ◌&&◌, List, [], ◌∷◌, none, some, ◌≡◌, refl, sym, ap, ◌∙◌, arith,
  ◌==◌, inl, inr, ==_iff, Bool-cases,
}
use roost_skill.Common.Int.{eqb_ℤ, eqb_ℤ_sound, eqb_ℤ_refl}
use roost_skill.Outbox.Packets.{
  StreamId, PendingId, Entry, packet_id, stream_id, same_stream, same_id, find_entry, put_entry,
  drop_entry,
}
use roost_skill.Outbox.Batch.{count_on}

and_parts : {a b : Bool} → (a && b) ≡ true → (a ≡ true) × (b ≡ true)
and_parts {a} {b} e = ground arith

and_both : {a b : Bool} → a ≡ true → b ≡ true → (a && b) ≡ true
and_both e f = rw (e, f) refl

pub same_stream_sound : (s t : StreamId) → same_stream s t ≡ true → s ≡ t
unfolding same_stream
same_stream_sound s t e =
    let c =
      and_parts {a = s.observer == t.observer && str_eq s.topic t.topic && eqb_ℤ s.key t.key} e in
    let b = and_parts {a = s.observer == t.observer && str_eq s.topic t.topic} c.0 in
    let a = and_parts {a = s.observer == t.observer} b.0 in
    λ i. record {
      observer = (==_iff s.observer t.observer).0 a.0 i;
      topic = (eq_iff s.topic t.topic).0 a.1 i;
      key = eqb_ℤ_sound s.key t.key b.1 i;
      epoch = (==_iff s.epoch t.epoch).0 c.1 i;
    }

pub same_stream_refl : (s : StreamId) → same_stream s s ≡ true
unfolding same_stream
same_stream_refl s =
    and_both
      (and_both (and_both ((==_iff s.observer s.observer).1 refl) ((eq_iff s.topic s.topic).1 refl))
        (eqb_ℤ_refl s.key))
      ((==_iff s.epoch s.epoch).1 refl)

pub same_id_sound : (i j : PendingId) → same_id i j ≡ true → i ≡ j
unfolding same_id
same_id_sound i j e =
    let a = and_parts {a = same_stream i.stream j.stream} e in
    λ k. record {
      stream = same_stream_sound i.stream j.stream a.0 k;
      sequence = (==_iff i.sequence j.sequence).0 a.1 k;
    }

pub same_id_refl : (i : PendingId) → same_id i i ≡ true
unfolding same_id
same_id_refl i = and_both (same_stream_refl i.stream) ((==_iff i.sequence i.sequence).1 refl)

-- Equal identities are alike against any third.
same_id_left : (i j k : PendingId) → same_id i j ≡ true → same_id i k ≡ same_id j k
same_id_left i j k e = ap (λ x. same_id x k) (same_id_sound i j e)

pub same_stream_sym : (s t : StreamId) → same_stream s t ≡ same_stream t s
same_stream_sym s t = elim (Bool-cases (same_stream s t)) [
  | inl yes_st ↦ yes_st ∙ sym (turn s t yes_st)
  | inr no_st ↦ elim (Bool-cases (same_stream t s)) [
    | inl yes_ts ↦ cc (yes_ts, turn t s yes_ts)
    | inr no_ts ↦ no_st ∙ sym no_ts
  ]
]
  where
    turn : (a b : StreamId) → same_stream a b ≡ true → same_stream b a ≡ true
    turn a b e = ap (λ x. same_stream x a) (sym (same_stream_sound a b e)) ∙ same_stream_refl a

pub same_id_sym : (i j : PendingId) → same_id i j ≡ same_id j i
same_id_sym i j = elim (Bool-cases (same_id i j)) [
  | inl yes_ij ↦ yes_ij ∙ sym (turn i j yes_ij)
  | inr no_ij ↦ elim (Bool-cases (same_id j i)) [
    | inl yes_ji ↦ cc (yes_ji, turn j i yes_ji)
    | inr no_ji ↦ no_ij ∙ sym no_ji
  ]
]
  where
    turn : (a b : PendingId) → same_id a b ≡ true → same_id b a ≡ true
    turn a b e = ap (λ x. same_id x a) (sym (same_id_sound a b e)) ∙ same_id_refl a

-- Identities alike to a third are alike.
same_id_meet : (i j k : PendingId) → same_id i k ≡ true → same_id j k ≡ true → same_id i j ≡ true
same_id_meet i j k e f = ap (λ x. same_id i x) (same_id_sound j k f) ∙ e

find_entry-same :
    (i j : PendingId) (es : List Entry)
    → same_id i j ≡ true
    → find_entry i es ≡ none
    → find_entry j es ≡ none
find_entry-same i j es e f = ap (λ x. find_entry x es) (sym (same_id_sound i j e)) ∙ f

-- No entry stands under a second entry's identity.
abbrev pub EntriesUnique : List Entry → Type 0
EntriesUnique [] = Unit
EntriesUnique (e ∷ es) = (find_entry (packet_id e.packet) es ≡ none) × EntriesUnique es

pub find_entry-put_entry :
    (j : PendingId) (new : Entry) (es : List Entry)
    → find_entry j (put_entry (packet_id new.packet) new es)
      ≡ (if same_id (packet_id new.packet) j then some new else find_entry j es)
unfolding find_entry put_entry
find_entry-put_entry j new [] = refl
find_entry-put_entry j new (e ∷ es) = ground (
  arith,
  find_entry-put_entry j new es,
  same_id_left (packet_id e.packet) (packet_id new.packet) j,
  same_id_meet (packet_id e.packet) (packet_id new.packet) j,
)

pub put_entry-EntriesUnique :
    (new : Entry) (es : List Entry)
    → find_entry (packet_id new.packet) es ≡ none
    → EntriesUnique es
    → EntriesUnique (put_entry (packet_id new.packet) new es)
unfolding find_entry put_entry
put_entry-EntriesUnique new [] fresh u = (refl, tt)
put_entry-EntriesUnique new (e ∷ es) fresh u = ground (
  arith,
  put_entry-EntriesUnique new es,
  find_entry-put_entry (packet_id e.packet) new es,
  same_id_sym (packet_id e.packet) (packet_id new.packet),
)

pub count_on-put_entry :
    (key : StreamId) (new : Entry) (es : List Entry)
    → find_entry (packet_id new.packet) es ≡ none
    → count_on key (put_entry (packet_id new.packet) new es)
      ≡ (if same_stream (stream_id new.packet) key then 1 + count_on key es else count_on key es)
unfolding find_entry put_entry count_on
count_on-put_entry key new [] fresh = refl
count_on-put_entry key new (e ∷ es) fresh = ground (arith, count_on-put_entry key new es)

pub find_entry-drop_entry :
    (i j : PendingId) (es : List Entry)
    → EntriesUnique es
    → find_entry j (drop_entry i es) ≡ (if same_id i j then none else find_entry j es)
unfolding find_entry drop_entry
find_entry-drop_entry i j [] u = ground arith
find_entry-drop_entry i j (e ∷ es) u = ground (
  arith,
  find_entry-drop_entry i j es,
  same_id_left (packet_id e.packet) i j,
  same_id_meet (packet_id e.packet) i j,
  find_entry-same (packet_id e.packet) j es,
)

pub drop_entry-EntriesUnique :
    (i : PendingId) (es : List Entry) → EntriesUnique es → EntriesUnique (drop_entry i es)
unfolding drop_entry
drop_entry-EntriesUnique i [] u = tt
drop_entry-EntriesUnique i (e ∷ es) u =
    ground (arith, drop_entry-EntriesUnique i es, find_entry-drop_entry i (packet_id e.packet) es)

pub find_entry-id :
    (i : PendingId) (es : List Entry) {e : Entry}
    → find_entry i es ≡ some e
    → same_id (packet_id e.packet) i ≡ true
unfolding find_entry
find_entry-id i [] f = cc
find_entry-id i (d ∷ es) {e} f = ground (arith, find_entry-id i es {e = e})

pub count_on-drop_entry :
    (key : StreamId) (i : PendingId) (es : List Entry) {e : Entry}
    → find_entry i es ≡ some e
    → count_on key es ≡ (
        if same_stream (stream_id e.packet) key
        then 1 + count_on key (drop_entry i es)
        else count_on key (drop_entry i es))
unfolding find_entry drop_entry count_on
count_on-drop_entry key i [] f = cc
count_on-drop_entry key i (d ∷ es) {e} f = ground (arith, count_on-drop_entry key i es {e = e})
