-- ===== src/Applier/Repetition.antt =====
-- skillsync/applier.go: packets that come again.
use roost_skill.Common.{
  ℕ, false, not, ◌&&◌, ◌≡◌, ◌≢◌, ◌≤◌, refl, ap, subst, sym, Bool-cases, inl, inr, ==_iff, List, [],
  ◌∷◌, All, ◌∙◌, arith, ◌==◌, any, if_cases,
}
use roost_skill.Applier.{
  Applier, Settings, Admission, already_applied, is_busy, admit_after, admit_locked, admit, checked,
  admit_checked, is_duplicate,
}
use roost_skill.Applier.Records.{CommitState, Codec}
use roost_skill.Applier.Application.{
  advance, applied, duplicate, refused, Outcome, apply, apply_admitted, sequence,
}
use roost_skill.Applier.Entrance.{Admits}
use roost_skill.Applier.Cursors.{started, equal_streams_sound}
use roost_skill.Applier.Outcomes.{checked-Passes, Ends, Applies, apply-Ends}
use roost_skill.Applier.Order.{
  after, after_epoch, after_cursor, after_other, fresh_known, run_commit-kept, current_cursor-known,
}
use roost_skill.Applier.Wedge.{apply_all}
use roost_skill.Applier.Streams.{Stream, Packet, StreamCursor, equal_streams}

admit_after-duplicate :
    (c : StreamCursor) (q : Packet) (b : Applier)
    → c.epoch ≡ q.epoch
    → q.sequence ≤ c.sequence
    → admit_after c q b ≡ (already_applied c.sequence q.epoch, b)
unfolding admit_after
admit_after-duplicate c q b same at = ground arith

-- The applier is in the epoch, idle and free for the stream, whose cursor is at the sequence or past it.
pub record IsPast (stream : Stream) (epoch sequence : ℕ) (b : Applier) : Type 0 where
  pub idle : b.pending_epoch ≡ 0
  pub free : is_busy b stream ≡ false
  pub begun : b.epoch ≡ epoch
  pub current : (b.sequences stream).epoch ≡ epoch
  pub reached : sequence ≤ (b.sequences stream).sequence

admit_locked-duplicate :
    (q : Packet) (b : Applier)
    → q.epoch ≢ 0
    → IsPast q.stream q.epoch q.sequence b
    → admit_locked q b ≡ (already_applied (b.sequences q.stream).sequence q.epoch, b)
unfolding admit_locked
admit_locked-duplicate q b set h =
    let idle = h.idle in
    let free = h.free in
    let begun = h.begun in
    if_cases P (not (b.pending_epoch == 0)) (λ e. absurd (ground arith))
      λ _.
        if_cases P (is_busy b q.stream) (λ e. absurd (ground arith))
          λ _.
            if_cases P (not (b.epoch == 0) && not (q.epoch == b.epoch)) (λ e. absurd (ground arith))
              λ _.
                if_cases P (b.epoch == 0) (λ e. absurd (ground arith))
                  λ _.
                    rw (current_cursor-known q b begun)
                      (admit_after-duplicate (b.sequences q.stream) q b h.current h.reached)
  where
    P : Admission × Applier → Type 0
    P r = r ≡ (already_applied (b.sequences q.stream).sequence q.epoch, b)

started-free : (q : Packet) (a : Applier) → Admits a q → is_busy (started q a) q.stream ≡ false
unfolding is_busy
started-free q a h =
    if_cases (λ (b : Applier). any (equal_streams q.stream) b.inflight ≡ false) (a.epoch == q.epoch)
      (λ _. h.free) (λ _. refl)

after_idle :
    (q : Packet) (a : Applier) (c : CommitState) → Admits a q → (after q a c).pending_epoch ≡ 0
unfolding advance
after_idle q a c h =
    (run_commit-kept c (started q a)).3
    ∙ if_cases (λ (b : Applier). b.pending_epoch ≡ 0) (a.epoch == q.epoch) (λ _. h.idle) (λ _. refl)

after_inflight :
    (q : Packet) (a : Applier) (c : CommitState) → (after q a c).inflight ≡ (started q a).inflight
unfolding advance
after_inflight q a c = (run_commit-kept c (started q a)).2

-- An applied packet is past itself.
after-IsPast :
    (q : Packet) (a : Applier) (c : CommitState)
    → Admits a q
    → IsPast q.stream q.epoch q.sequence (after q a c)
unfolding is_busy
after-IsPast q a c h = record {
  idle = after_idle q a c h;
  free = ap (any (equal_streams q.stream)) (after_inflight q a c) ∙ started-free q a h;
  begun = after_epoch q a c;
  current = ap (λ (x : StreamCursor). x.epoch) (after_cursor q a c);
  reached = rw (after_cursor q a c) (omega arith);
}

started_same : (q : Packet) (a : Applier) → a.epoch ≡ q.epoch → started q a ≡ a
started_same q a e = rw ((==_iff a.epoch q.epoch).1 e) refl

newer :
    (c : StreamCursor) (q : Packet) (n : ℕ)
    → c.epoch ≡ q.epoch
    → is_duplicate c q ≡ false
    → n ≤ c.sequence
    → n ≤ q.sequence
unfolding is_duplicate
newer c q n same fresh le = ground arith

-- The cursor of a stream after a later packet of the epoch.
later_cursor :
    (stream : Stream) (n : ℕ) (q : Packet) (a : Applier) (c : CommitState)
    → Admits a q
    → IsPast stream q.epoch n a
    → (let d = (after q a c).sequences stream in (d.epoch ≡ q.epoch) × (n ≤ d.sequence))
later_cursor stream n q a c h k = elim (Bool-cases (equal_streams q.stream stream)) [
  | inl e ↦
      let same = equal_streams_sound q.stream stream e in
      subst (λ r. (let d = (after q a c).sequences r in (d.epoch ≡ q.epoch) × (n ≤ d.sequence)))
        same
        (rw (after_cursor q a c) (
          refl,
          newer (a.sequences q.stream) q n (ap (λ r. (a.sequences r).epoch) same ∙ k.current)
              (fresh_known q a k.begun h)
              (subst (λ r. n ≤ (a.sequences r).sequence) (sym same) k.reached),
        ))
  | inr e ↦ rw (after_other q a c stream e, started_same q a k.begun) (k.current, k.reached)
]

-- A later packet of the epoch, when it is applied, leaves the stream past the sequence.
later-IsPast :
    (stream : Stream) (n : ℕ) (q : Packet) (a : Applier) (c : CommitState)
    → Admits a q
    → IsPast stream q.epoch n a
    → IsPast stream q.epoch n (after q a c)
unfolding is_busy
later-IsPast stream n q a c h k =
    let cursor = later_cursor stream n q a c h k in
    record {
      idle = after_idle q a c h;
      free =
          ap (any (equal_streams stream))
            (after_inflight q a c ∙ ap (λ (x : Applier). x.inflight) (started_same q a k.begun))
          ∙ k.free;
      begun = after_epoch q a c;
      current = cursor.0;
      reached = cursor.1;
    }

module _ {S : Type 0} (o : Settings S) (codec : Codec) where
  -- Whatever becomes of a packet of the epoch.
  apply-IsPast :
      (stream : Stream) (n : ℕ) (p : Packet) (a : Applier) (s : S)
      → IsPast stream p.epoch n a
      → IsPast stream p.epoch n (apply o codec p a s).1
  apply-IsPast stream n p a s k = go (apply o codec p a s) (apply-Ends o p a codec s)
    where
      epoch_kept : (q : Packet) → checked o p ≡ inr q → q.epoch ≡ p.epoch
      epoch_kept q passed = ap (λ (x : Packet). x.epoch) (checked-Passes o p passed).same

      go : (r : Outcome × Applier × S) → Ends o p a r → IsPast stream p.epoch n r.1
      go (refused e, b, t) (inl u) = subst (IsPast stream p.epoch n) (sym u) k
      go (refused e, b, t) (inr (q, passed, w, e_is, b_is)) =
          absurd (begins_not a.epoch q.epoch (k.begun ∙ sym (epoch_kept q passed)) w.begins)
        where
          begins_not : (m e : ℕ) → m ≡ e → (m == e) ≡ false → ⊥
          begins_not m e same other = ground arith
      go (duplicate m e, b, t) (q, passed, b_is, twice, known) =
          subst (IsPast stream p.epoch n) (sym b_is) k
      go (applied m e, b, t) (q, c, passed, h, n_is, e_is, b_is) =
          let same = epoch_kept q passed in
          subst (IsPast stream p.epoch n) (sym b_is) (
            subst (λ x. IsPast stream x n (after q a c)) same
              (later-IsPast stream n q a c h (subst (λ x. IsPast stream x n a) (sym same) k)))

  apply_all-IsPast :
      (stream : Stream) (epoch n : ℕ) (ps : List Packet) (a : Applier) (s : S)
      → All (λ (r : Packet). r.epoch ≡ epoch) ps
      → IsPast stream epoch n a
      → IsPast stream epoch n (apply_all o codec ps a s).1
  unfolding apply_all
  apply_all-IsPast stream epoch n [] a s h k = k
  apply_all-IsPast stream epoch n (p ∷ ps) a s h k =
      let x = apply o codec p a s in
      apply_all-IsPast stream epoch n ps x.1 x.2 h.1 (
        subst (λ e. IsPast stream e n x.1) h.0
          (apply-IsPast stream n p a s (subst (λ e. IsPast stream e n a) (sym h.0) k)))

  -- A packet that was applied and comes again, at once or after any packets of its epoch, whatever
  -- became of them, is reported as a duplicate with the stream's cursor, which is at the packet or
  -- past it; neither the applier nor the consumers change.
  pub apply-apply :
      (p : Packet) (ps : List Packet) (a : Applier) (s : S) {n e : ℕ} {b : Applier} {t : S}
      → apply o codec p a s ≡ (applied n e, b, t)
      → All (λ (r : Packet). r.epoch ≡ p.epoch) ps
      → (u : S)
      → (let later = (apply_all o codec ps b t).1 in
          (p.sequence ≤ sequence p.stream later)
          × (apply o codec p later u ≡ (duplicate (sequence p.stream later) p.epoch, later, u)))
  unfolding apply admit sequence
  apply-apply p ps a s {n} {e} {b} {t} run same u =
      go (subst (Ends o p a) run (apply-Ends o p a codec s))
    where
      later : Applier
      later = (apply_all o codec ps b t).1

      go :
          Applies o p a n e b
          → (p.sequence ≤ (later.sequences p.stream).sequence)
            × (apply_admitted o codec (admit_checked (checked o p) later) u
                ≡ (duplicate (later.sequences p.stream).sequence p.epoch, later, u))
      go (q, c, passed, h, n_is, e_is, b_is) =
          let k = checked-Passes o p passed in
          let first =
            subst (IsPast q.stream q.epoch q.sequence) (sym b_is) (after-IsPast q a c h) in
          let past : IsPast p.stream p.epoch p.sequence later =
            apply_all-IsPast p.stream p.epoch p.sequence ps b t same
              (subst (λ (x : Packet). IsPast x.stream x.epoch x.sequence b) k.same first) in
          let again =
            subst (λ (x : Packet). IsPast x.stream x.epoch x.sequence later) (sym k.same) past in
          (
            past.reached,
            rw passed (
                ap (λ r. apply_admitted o codec r u)
                  (admit_locked-duplicate q later k.epoch_set again)
                ∙ ap
                    (λ (x : Packet).
                      (duplicate (later.sequences x.stream).sequence x.epoch, later, u))
                    k.same),
          )
