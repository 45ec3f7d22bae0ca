-- ===== src/Applier/Entrance.antt =====
-- skillsync/applier.go: what admit lets in, and what it leaves behind.
use roost_skill.Common.{
  ℕ, Bool, true, false, if◌then◌else◌, not, ◌&&◌, ◌||◌, List, [], ◌∷◌, ◌≡◌, ◌≢◌, refl, ap, ◌⊎◌, inl,
  inr, arith, ◌==◌, ltb, length, if_cases, ==_iff,
}
use roost_skill.Applier.{
  Applier, Admission, admitted, already_applied, rejected, is_busy, current_cursor, has_gap,
  is_duplicate, admit_after, admit_locked,
}
use roost_skill.Applier.Consumers.{Error}
use roost_skill.Applier.Streams.{Stream, Packet, StreamCursor}

-- The applier while an admitted packet is applied.
abbrev pub pending_for : Packet → Applier → ℕ
pending_for p a = if a.epoch == p.epoch then a.pending_epoch else p.epoch

abbrev pub held : Packet → Applier → Applier
held p a = record a { pending_epoch = pending_for p a; inflight = p.stream ∷ a.inflight }

-- A full packet stands alone; a delta follows its stream's cursor by one.
abbrev pub Follows : StreamCursor → Packet → Type 0
Follows c p = ((p.full ≡ true) × (p.base_sequence ≡ 0)) ⊎ ((p.full ≡ false) × (has_gap c p ≡ false))

abbrev pub Entry : Applier → Packet → Type 0
Entry a p = (a.epoch ≡ p.epoch) ⊎ ((p.full ≡ true) × (a.inflight ≡ []))

pub record Admits (a : Applier) (p : Packet) : Type 0 where
  pub idle : a.pending_epoch ≡ 0
  pub free : is_busy a p.stream ≡ false
  pub fresh : is_duplicate (current_cursor a p) p ≡ false
  pub follows : Follows (current_cursor a p) p
  pub enters : Entry a p

-- A full packet with a base sequence, which would begin a new epoch.
pub record Wedges (a : Applier) (p : Packet) : Type 0 where
  pub idle : a.pending_epoch ≡ 0
  pub alone : a.inflight ≡ []
  pub begins : (a.epoch == p.epoch) ≡ false
  pub full : p.full ≡ true
  pub based : (p.base_sequence == 0) ≡ false

-- What an admission may do: hold the packet, recognise a duplicate, or reject it.
abbrev pub Admitted : Packet → Applier → Admission × Applier → Type 0
Admitted p a (admitted q, b) = Admits a p × (q ≡ p) × (b ≡ held p a)
Admitted p a (already_applied q e, b) =
    (b ≡ a) × (is_duplicate (current_cursor a p) p ≡ true) × (a.epoch ≡ p.epoch)
Admitted p a (rejected e, b) =
    (b ≡ a) ⊎ (Wedges a p × (e ≡ Error.packet_shape) × (b ≡ record a { pending_epoch = p.epoch }))

no_entries : (xs : List Stream) → ltb 0 (length xs) ≡ false → xs ≡ []
no_entries [] h = refl
no_entries (x ∷ xs) h = ground arith

follows_tests :
    (full based gap : Bool)
    → (full && not based) ≡ false
    → (not full && gap) ≡ false
    → ((full ≡ true) × (based ≡ true)) ⊎ ((full ≡ false) × (gap ≡ false))
follows_tests true based gap e h = inl (refl, ground arith)
follows_tests false based gap e h = inr (refl, h)

Follows-of :
    (c : StreamCursor) (p : Packet)
    → ((p.full ≡ true) × ((p.base_sequence == 0) ≡ true))
      ⊎ ((p.full ≡ false) × (has_gap c p ≡ false))
    → Follows c p
Follows-of c p (inl (f, b)) = inl (f, (==_iff p.base_sequence 0).0 b)
Follows-of c p (inr h) = inr h

-- The three tests of an admission, with what each branch knows.
admit_after_cases :
    (P : Admission × Applier → Type 0) (c : StreamCursor) (p : Packet) (a : Applier)
    → (is_duplicate c p ≡ true → P (already_applied c.sequence p.epoch, a))
    → (is_duplicate c p ≡ false
        → p.full ≡ true
        → (p.base_sequence == 0) ≡ false
        → P (rejected Error.packet_shape, a))
    → (p.full ≡ false → P (rejected Error.sequence_gap, a))
    → (is_duplicate c p ≡ false
        → Follows c p
        → P (admitted p, record a { inflight = p.stream ∷ a.inflight }))
    → P (admit_after c p a)
unfolding admit_after
admit_after_cases P c p a old shape gap entry = if_cases P (is_duplicate c p) old λ fresh.
    if_cases P (p.full && not (p.base_sequence == 0))
      (λ e. shape fresh (ground arith) (ground arith))
      λ plain.
        if_cases P (not p.full && has_gap c p) (λ e. gap (ground arith))
          λ ordered. entry fresh (
            Follows-of c p
              (follows_tests p.full (p.base_sequence == 0) (has_gap c p) plain ordered))

admit_after_known :
    (p : Packet) (a : Applier)
    → a.pending_epoch ≡ 0
    → is_busy a p.stream ≡ false
    → (a.epoch == p.epoch) ≡ true
    → Admitted p a (admit_after (current_cursor a p) p a)
admit_after_known p a idle free known =
    admit_after_cases (Admitted p a) (current_cursor a p) p a
      (λ d. (refl, d, (==_iff a.epoch p.epoch).0 known)) (λ _ _ _. inl refl) (λ _. inl refl)
      λ n f. (
        record {
          idle = idle;
          free = free;
          fresh = n;
          follows = f;
          enters = inl ((==_iff a.epoch p.epoch).0 known);
        },
        refl,
        ap (λ n. record a { pending_epoch = n; inflight = p.stream ∷ a.inflight }) (rw known refl),
      )

-- A new epoch has no cursor, so nothing of it is a duplicate.
pub no_duplicate :
    (p : Packet) (a : Applier)
    → p.epoch ≢ 0
    → (a.epoch == p.epoch) ≡ false
    → is_duplicate (current_cursor a p) p ≡ true
    → ⊥
unfolding is_duplicate current_cursor
no_duplicate p a e new d = ground arith

admit_after_new :
    (p : Packet) (a : Applier)
    → p.epoch ≢ 0
    → a.pending_epoch ≡ 0
    → is_busy a p.stream ≡ false
    → (a.epoch == p.epoch) ≡ false
    → p.full ≡ true
    → a.inflight ≡ []
    → Admitted p a (admit_after (current_cursor a p) p (record a { pending_epoch = p.epoch }))
admit_after_new p a e idle free new full alone =
    admit_after_cases (Admitted p a) (current_cursor a p) p (record a { pending_epoch = p.epoch })
      (λ d. absurd (no_duplicate p a e new d))
      (λ _ f b.
        inr (record { idle = idle; alone = alone; begins = new; full = f; based = b }, refl, refl))
      (λ delta. cc)
      λ n f. (
        record { idle = idle; free = free; fresh = n; follows = f; enters = inr (full, alone) },
        refl,
        ap (λ n. record a { pending_epoch = n; inflight = p.stream ∷ a.inflight }) (rw new refl),
      )

-- Every branch of the locked admission.
pub admit_locked_lem : (p : Packet) (a : Applier) → p.epoch ≢ 0 → Admitted p a (admit_locked p a)
unfolding admit_locked
admit_locked_lem p a e =
    if_cases (Admitted p a) (not (a.pending_epoch == 0)) (λ _. inl refl)
      λ idle.
        if_cases (Admitted p a) (is_busy a p.stream) (λ _. inl refl)
          λ free.
            if_cases (Admitted p a) (not (a.epoch == 0) && not (p.epoch == a.epoch))
              (λ other.
                if_cases (Admitted p a) (not p.full) (λ _. inl refl)
                  λ full.
                    if_cases (Admitted p a) (ltb 0 (length a.inflight)) (λ _. inl refl)
                      λ alone.
                        admit_after_new p a e (ground arith) free (ground arith) (ground arith)
                          (no_entries a.inflight alone))
              λ same.
                if_cases (Admitted p a) (a.epoch == 0)
                  (λ first.
                    if_cases (Admitted p a) (not p.full || ltb 0 (length a.inflight))
                      (λ _. inl refl)
                      λ full.
                        admit_after_new p a e (ground arith) free (ground arith) (ground arith)
                          (no_entries a.inflight (ground arith)))
                  λ later. admit_after_known p a (ground arith) free (ground arith)
