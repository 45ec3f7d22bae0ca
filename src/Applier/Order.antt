-- ===== src/Applier/Order.antt =====
-- skillsync/applier.go: the order in which packets are applied.
use roost_skill.Common.{
  ℕ, ◌+◌, ◌<◌, true, false, if◌then◌else◌, ◌≡◌, ◌≢◌, refl, sym, ap, subst, ◌∙◌, ◌⊎◌, inl, inr,
  arith, ◌==◌, if_cases, ==_iff, Bool-cases,
}
use roost_skill.Applier.{Applier, Settings, current_cursor, has_gap, is_duplicate}
use roost_skill.Applier.Records.{
  CommitState, Codec, keep_nothing, keep_manifest, keep_state_mutation, keep_presentation_event,
}
use roost_skill.Applier.Application.{
  advance, run_commit, set_cursor, Outcome, applied, duplicate, refused, apply, sequence,
}
use roost_skill.Applier.Entrance.{Admits, Follows, Entry}
use roost_skill.Applier.Cursors.{started, equal_streams_refl, equal_streams_sound}
use roost_skill.Applier.Outcomes.{checked-Passes, Ends, apply-Ends}
use roost_skill.Applier.Streams.{Stream, Packet, StreamCursor, equal_streams}

-- A cursor is unset, or of the applier's epoch.
abbrev pub CursorIsValid : ℕ → StreamCursor → Type 0
CursorIsValid epoch c = ((c.epoch ≡ 0) × (c.sequence ≡ 0)) ⊎ ((c.epoch ≡ epoch) × (c.epoch ≢ 0))

abbrev pub CursorsAreValid : Applier → Type 0
CursorsAreValid a = (s : Stream) → CursorIsValid a.epoch (a.sequences s)

CursorIsValid-moved :
    {d e : ℕ} {b c : StreamCursor} → e ≡ d → c ≡ b → CursorIsValid d b → CursorIsValid e c
CursorIsValid-moved {d} {e} {b} {c} p q v =
    subst (λ x. CursorIsValid x c) (sym p) (subst (CursorIsValid d) (sym q) v)

pub run_commit-kept :
    (c : CommitState) (a : Applier)
    → ((run_commit c a).epoch ≡ a.epoch)
      × ((run_commit c a).sequences ≡ a.sequences)
      × ((run_commit c a).inflight ≡ a.inflight)
      × ((run_commit c a).pending_epoch ≡ a.pending_epoch)
unfolding run_commit
run_commit-kept keep_nothing a = (refl, refl, refl, refl)
run_commit-kept (keep_manifest d plan) a = (refl, refl, refl, refl)
run_commit-kept (keep_state_mutation k n) a = (refl, refl, refl, refl)
run_commit-kept (keep_presentation_event k n) a = (refl, refl, refl, refl)

started_epoch : (q : Packet) (a : Applier) → (started q a).epoch ≡ q.epoch
started_epoch q a =
    if_cases (λ (b : Applier). b.epoch ≡ q.epoch) (a.epoch == q.epoch)
      (λ e. (==_iff a.epoch q.epoch).0 e) (λ _. refl)

started-CursorsAreValid :
    (q : Packet) (a : Applier) → CursorsAreValid a → CursorsAreValid (started q a)
started-CursorsAreValid q a v =
    if_cases CursorsAreValid (a.epoch == q.epoch) (λ _. v) (λ _ s. inl (refl, refl))

-- The cursors after an applied packet.
pub advanced : Packet → Applier → Stream → StreamCursor
advanced q a =
    set_cursor q.stream (record { epoch = q.epoch; sequence = q.sequence }) (started q a).sequences

module _ (q : Packet) (a : Applier) (c : CommitState) where
  abbrev pub after : Applier
  after = advance q (run_commit c (started q a))

  pub after_epoch : after.epoch ≡ q.epoch
  unfolding advance
  after_epoch = (run_commit-kept c (started q a)).0 ∙ started_epoch q a

  after_sequences : after.sequences ≡ advanced q a
  unfolding advance advanced
  after_sequences =
      ap (set_cursor q.stream (record { epoch = q.epoch; sequence = q.sequence }))
        ((run_commit-kept c (started q a)).1)

  pub after_cursor : after.sequences q.stream ≡ record { epoch = q.epoch; sequence = q.sequence }
  unfolding advanced set_cursor
  after_cursor =
      ap (λ (m : Stream → StreamCursor). m q.stream) after_sequences
      ∙ rw (equal_streams_refl q.stream) refl

  pub after_other :
      (t : Stream)
      → equal_streams q.stream t ≡ false
      → after.sequences t ≡ (started q a).sequences t
  unfolding advanced set_cursor
  after_other t other = ap (λ (m : Stream → StreamCursor). m t) after_sequences ∙ rw other refl

  after-CursorsAreValid : q.epoch ≢ 0 → CursorsAreValid a → CursorsAreValid after
  after-CursorsAreValid e v s = elim (Bool-cases (equal_streams q.stream s)) [
    | inl same ↦
        CursorIsValid-moved after_epoch
          (ap after.sequences (sym (equal_streams_sound q.stream s same)) ∙ after_cursor)
          (inr (refl, e))
    | inr other ↦
        CursorIsValid-moved (after_epoch ∙ sym (started_epoch q a)) (after_other s other)
          (started-CursorsAreValid q a v s)
  ]

  -- A stream's cursor in the packet's epoch: none, if the packet begins it.
  started_sequence :
      (t : Stream)
      → ((started q a).sequences t).sequence ≡ (if a.epoch == q.epoch then sequence t a else 0)
  unfolding sequence
  started_sequence t =
      if_cases
        (λ (b : Applier).
          (b.sequences t).sequence ≡ (if a.epoch == q.epoch then sequence t a else 0))
        (a.epoch == q.epoch) (λ e. rw e refl) (λ e. rw e refl)

-- A delta that has no gap follows the cursor by one: the wrap-around of uint64 is never met.
follows_by_one :
    (epoch : ℕ) (c : StreamCursor) (q : Packet)
    → CursorIsValid epoch c
    → epoch ≡ q.epoch
    → q.sequence ≢ 0
    → is_duplicate c q ≡ false
    → has_gap c q ≡ false
    → (q.base_sequence ≡ c.sequence) × (q.sequence ≡ c.sequence + 1)
unfolding is_duplicate has_gap
follows_by_one epoch c q (inl (z, w)) same set fresh gap = ground arith
follows_by_one epoch c q (inr (e, k)) same set fresh gap = ground arith

-- How an applied packet stands to the cursor before it.
abbrev pub FollowsCursor : Packet → Applier → Type 0
FollowsCursor p a =
    ((p.full ≡ true) × (p.base_sequence ≡ 0))
    ⊎ ((p.full ≡ false)
        × (a.epoch ≡ p.epoch)
        × (p.base_sequence ≡ sequence p.stream a)
        × (p.sequence ≡ sequence p.stream a + 1))

pub exceeds :
    (epoch : ℕ) (c : StreamCursor) (q : Packet)
    → CursorIsValid epoch c
    → epoch ≡ q.epoch
    → q.sequence ≢ 0
    → is_duplicate c q ≡ false
    → c.sequence < q.sequence
unfolding is_duplicate
exceeds epoch c q (inl (z, w)) same set fresh = ground arith
exceeds epoch c q (inr (e, k)) same set fresh = ground arith

pub current_cursor-known :
    (q : Packet) (a : Applier) → a.epoch ≡ q.epoch → current_cursor a q ≡ a.sequences q.stream
unfolding current_cursor
current_cursor-known q a e = rw ((==_iff a.epoch q.epoch).1 e) refl

pub fresh_known :
    (q : Packet) (a : Applier)
    → a.epoch ≡ q.epoch
    → Admits a q
    → is_duplicate (a.sequences q.stream) q ≡ false
fresh_known q a e h = subst (λ c. is_duplicate c q ≡ false) (current_cursor-known q a e) h.fresh

follows_cursor :
    (q : Packet) (a : Applier) → CursorsAreValid a → q.sequence ≢ 0 → Admits a q → FollowsCursor q a
unfolding sequence
follows_cursor q a v set h = go h.follows h.enters
  where
    go : Follows (current_cursor a q) q → Entry a q → FollowsCursor q a
    go (inl f) e = inl f
    go (inr f) (inr n) = absurd (ground arith)
    go (inr f) (inl e) =
        let r =
          follows_by_one a.epoch (a.sequences q.stream) q (v q.stream) e set (fresh_known q a e h)
            (subst (λ c. has_gap c q ≡ false) (current_cursor-known q a e) f.1) in
        inr (f.0, e, r.0, r.1)

grows :
    (q : Packet) (a : Applier)
    → CursorsAreValid a
    → q.sequence ≢ 0
    → Admits a q
    → a.epoch ≡ q.epoch
    → sequence q.stream a < q.sequence
unfolding sequence
grows q a v set h e =
    exceeds a.epoch (a.sequences q.stream) q (v q.stream) e set (fresh_known q a e h)

-- What an applied packet shows of the applier before and after it.
abbrev pub InOrder : Packet → Applier → Applier → Type 0
InOrder p a b =
    FollowsCursor p a
    × (a.epoch ≡ p.epoch → sequence p.stream a < p.sequence)
    × (b.epoch ≡ p.epoch)
    × (sequence p.stream b ≡ p.sequence)
    × ((r : Stream)
        → equal_streams p.stream r ≡ false
        → sequence r b ≡ (if a.epoch == p.epoch then sequence r a else 0))

after-InOrder :
    (q : Packet) (a : Applier) (c : CommitState)
    → CursorsAreValid a
    → q.sequence ≢ 0
    → Admits a q
    → InOrder q a (after q a c)
unfolding sequence
after-InOrder q a c v set h = (
  follows_cursor q a v set h,
  grows q a v set h,
  after_epoch q a c,
  ap (λ (x : StreamCursor). x.sequence) (after_cursor q a c),
  λ r other.
      ap (λ (x : StreamCursor). x.sequence) (after_other q a c r other) ∙ started_sequence q a c r,
)

module _ {S : Type 0} (o : Settings S) (codec : Codec) (p : Packet) (a : Applier) (s : S) where
  -- What each outcome of Apply shows of the applier before and after it.
  abbrev pub Moves : Outcome × Applier × S → Type 0
  Moves (applied n e, b, t) = (n ≡ p.sequence) × (e ≡ p.epoch) × InOrder p a b
  Moves (duplicate n e, b, t) = b ≡ a
  Moves (refused e, b, t) = (b.epoch ≡ a.epoch) × (b.sequences ≡ a.sequences)

  -- Apply reports `applied` for a packet only in order: it is a full packet with no base, or a delta
  -- of the applier's epoch whose base is its stream's cursor and whose sequence is the next one;
  -- within an epoch the cursor grows. Afterwards the applier is in the packet's epoch and the
  -- stream's cursor is at the packet; every other stream's cursor is as it was, or unset if the
  -- packet began the epoch. No other outcome moves a cursor or changes the epoch, and a duplicate
  -- changes nothing of the applier.
  pub apply-InOrder : CursorsAreValid a → Moves (apply o codec p a s)
  apply-InOrder v = go (apply o codec p a s) (apply-Ends o p a codec s)
    where
      go : (r : Outcome × Applier × S) → Ends o p a r → Moves r
      go (refused e, b, t) (inl u) =
          (ap (λ (x : Applier). x.epoch) u, ap (λ (x : Applier). x.sequences) u)
      go (refused e, b, t) (inr w) =
          (ap (λ (x : Applier). x.epoch) w.4, ap (λ (x : Applier). x.sequences) w.4)
      go (duplicate n e, b, t) w = w.2
      go (applied n e, b, t) (q, c, passed, h, n_is, e_is, b_is) =
          let k = checked-Passes o p passed in
          (
            n_is ∙ ap (λ (x : Packet). x.sequence) k.same,
            e_is ∙ ap (λ (x : Packet). x.epoch) k.same,
            subst (λ x. InOrder x a b) k.same
                (subst (InOrder q a) (sym b_is) (after-InOrder q a c v k.sequence_set h)),
          )

  -- Every cursor stays unset or of the applier's epoch, whatever the outcome of Apply.
  pub apply-CursorsAreValid : CursorsAreValid a → CursorsAreValid (apply o codec p a s).1
  apply-CursorsAreValid v = go (apply o codec p a s) (apply-Ends o p a codec s)
    where
      go : (r : Outcome × Applier × S) → Ends o p a r → CursorsAreValid r.1
      go (refused e, b, t) (inl u) = subst CursorsAreValid (sym u) v
      go (refused e, b, t) (inr w) = subst CursorsAreValid (sym w.4) v
      go (duplicate n e, b, t) w = subst CursorsAreValid (sym w.2) v
      go (applied n e, b, t) (q, c, passed, h, n_is, e_is, b_is) =
          subst CursorsAreValid (sym b_is)
            (after-CursorsAreValid q a c (checked-Passes o p passed).epoch_set v)
