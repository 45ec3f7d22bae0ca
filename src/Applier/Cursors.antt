-- ===== src/Applier/Cursors.antt =====
-- skillsync/applier.go: what each outcome of Apply leaves of the applier's state.
use text.Mathlib.TextEquality.{eq_iff}
use roost_skill.Common.{
  ℕ, true, false, if◌then◌else◌, not, List, [], ◌∷◌, none, some, ◌≡◌, refl, sym, ap, ◌∙◌, ◌⊎◌, inl,
  inr, arith, ◌==◌, any, if_cases, if_both, ==_iff, Bool-cases,
}
use roost_skill.Common.Int.{eqb_ℤ_sound, eqb_ℤ_refl}
use roost_skill.Applier.{Applier, is_busy, new_state}
use roost_skill.Applier.Records.{
  CommitState, keep_nothing, keep_manifest, keep_state_mutation, keep_presentation_event,
}
use roost_skill.Applier.Application.{
  finish, delete_stream, enter_epoch, clear_pending, advance, run_commit,
}
use roost_skill.Applier.Entrance.{pending_for, Admits, held, Entry}
use roost_skill.Applier.Streams.{Stream, Packet, equal_streams}

pub equal_streams_refl : (s : Stream) → equal_streams s s ≡ true
unfolding equal_streams
equal_streams_refl s = rw ((eq_iff s.topic s.topic).1 refl, eqb_ℤ_refl s.key) refl

pub equal_streams_sound : (s t : Stream) → equal_streams s t ≡ true → s ≡ t
unfolding equal_streams
equal_streams_sound s t e = λ i. record {
  topic = (eq_iff s.topic t.topic).0 (ground arith) i;
  key = eqb_ℤ_sound s.key t.key (ground arith) i;
}

delete_stream-absent :
    (s : Stream) (ts : List Stream) → any (equal_streams s) ts ≡ false → delete_stream s ts ≡ ts
unfolding delete_stream
delete_stream-absent s [] h = refl
delete_stream-absent s (t ∷ ts) h = ground (arith, delete_stream-absent s ts)

pub delete_stream-held :
    (s : Stream) (ts : List Stream)
    → any (equal_streams s) ts ≡ false
    → delete_stream s (s ∷ ts) ≡ ts
unfolding delete_stream
delete_stream-held s ts h = rw (equal_streams_refl s) (delete_stream-absent s ts h)

-- The applier in a packet's epoch, before the packet counts.
abbrev pub started : Packet → Applier → Applier
started p a = if a.epoch == p.epoch then a else record new_state { epoch = p.epoch }

pending_for_value :
    (p : Packet) (a : Applier)
    → a.pending_epoch ≡ 0
    → (pending_for p a ≡ 0) ⊎ (pending_for p a ≡ p.epoch)
pending_for_value p a idle = elim (Bool-cases (a.epoch == p.epoch)) [
  | inl e ↦ inl (rw e idle)
  | inr e ↦ inr (rw e refl)
]

clear_marked :
    (p : Packet) (b : Applier) (n : ℕ)
    → b.pending_epoch ≡ 0
    → (n ≡ 0) ⊎ (n ≡ p.epoch)
    → clear_pending p (record b { pending_epoch = n }) ≡ b
unfolding clear_pending
clear_marked p b n idle h =
    if_cases (λ r. r ≡ b) (n == p.epoch) (λ _ i. record b { pending_epoch = sym idle i })
      λ other. λ i. record b { pending_epoch = unmarked other h i }
  where
    unmarked : (n == p.epoch) ≡ false → (n ≡ 0) ⊎ (n ≡ p.epoch) → n ≡ b.pending_epoch
    unmarked other (inl z) = z ∙ sym idle
    unmarked other (inr z) = absurd (ground arith)

pub finish-failed : (p : Packet) (a : Applier) → Admits a p → finish p none (held p a) ≡ a
unfolding finish is_busy
finish-failed p a h =
    rw (delete_stream-held p.stream a.inflight h.free)
      (clear_marked p a (pending_for p a) h.idle (pending_for_value p a h.idle))

started-idle : (p : Packet) (a : Applier) → a.pending_epoch ≡ 0 → (started p a).pending_epoch ≡ 0
started-idle p a idle =
    if_cases (λ (b : Applier). b.pending_epoch ≡ 0) (a.epoch == p.epoch) (λ _. idle) (λ _. refl)

alone_of : (p : Packet) (a : Applier) → Entry a p → (a.epoch == p.epoch) ≡ false → a.inflight ≡ []
alone_of p a (inl e) other = absurd (ground arith)
alone_of p a (inr h) other = h.1

enter_epoch-held :
    (p : Packet) (a : Applier)
    → Entry a p
    → enter_epoch p (record a { pending_epoch = pending_for p a })
      ≡ record (started p a) { pending_epoch = pending_for p a }
unfolding enter_epoch
enter_epoch-held p a enters = elim (Bool-cases (a.epoch == p.epoch)) [
  | inl same ↦
      rw same (if_both (λ (r : Applier). r ≡ a) (not (a.pending_epoch == p.epoch)) refl refl)
  | inr other ↦
      rw (other, (==_iff p.epoch p.epoch).1 refl)
        λ i. record new_state {
          epoch = p.epoch;
          pending_epoch = p.epoch;
          inflight = alone_of p a enters other i;
        }
]

clear-advance :
    (p : Packet) (b : Applier) (n : ℕ) (c : CommitState)
    → b.pending_epoch ≡ 0
    → (n ≡ 0) ⊎ (n ≡ p.epoch)
    → clear_pending p (advance p (run_commit c (record b { pending_epoch = n })))
      ≡ advance p (run_commit c b)
unfolding advance run_commit
clear-advance p b n keep_nothing idle h = clear_marked p (advance p b) n idle h
clear-advance p b n (keep_manifest d plan) idle h =
    clear_marked p (advance p (run_commit (keep_manifest d plan) b)) n idle h
clear-advance p b n (keep_state_mutation k q) idle h =
    clear_marked p (advance p (run_commit (keep_state_mutation k q) b)) n idle h
clear-advance p b n (keep_presentation_event k q) idle h =
    clear_marked p (advance p (run_commit (keep_presentation_event k q) b)) n idle h

pub finish-applied :
    (p : Packet) (a : Applier) (c : CommitState)
    → Admits a p
    → finish p (some c) (held p a) ≡ advance p (run_commit c (started p a))
unfolding finish is_busy
finish-applied p a c h = rw (delete_stream-held p.stream a.inflight h.free) (
    ap (λ b. clear_pending p (advance p (run_commit c b))) (enter_epoch-held p a h.enters)
    ∙ clear-advance p (started p a) (pending_for p a) c (started-idle p a h.idle)
        (pending_for_value p a h.idle))
