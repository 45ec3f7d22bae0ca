-- ===== src/Applier/Wedge.antt =====
-- skillsync/applier.go: a full packet with a base sequence, and the packets that come after it.
use roost_skill.Common.{
  Bool, true, false, not, ◌&&◌, ◌||◌, List, [], ◌∷◌, ◌≡◌, ◌≢◌, refl, ap, ◌∙◌, ◌⊎◌, inl, inr, arith,
  ◌==◌, ltb, length, if_cases, All, any,
}
use roost_skill.Applier.{
  Applier, Settings, Admission, rejected, is_busy, current_cursor, is_duplicate, admit_after,
  admit_locked, admit, checked, admit_checked,
}
use roost_skill.Applier.Consumers.{Error}
use roost_skill.Applier.Records.{Codec}
use roost_skill.Applier.Application.{Outcome, applied, duplicate, refused, apply, apply_admitted}
use roost_skill.Applier.Entrance.{Wedges, no_duplicate}
use roost_skill.Applier.Outcomes.{checked-Passes}
use roost_skill.Applier.Streams.{Packet, equal_streams}

-- The packets of a list, applied one after the other, with their outcomes.
module _ {S : Type 0} (o : Settings S) (codec : Codec) where
  abbrev pub with_outcome :
      (Applier → S → List Outcome × Applier × S)
      → Outcome × Applier × S
      → List Outcome × Applier × S
  with_outcome rest (r, a, s) = let x = rest a s in (r ∷ x.0, x.1, x.2)

  unfoldable pub apply_all : List Packet → Applier → S → List Outcome × Applier × S
  apply_all [] a s = ([], a, s)
  apply_all (p ∷ ps) a s = with_outcome (apply_all ps) (apply o codec p a s)

abbrev pub IsRefused : Outcome → Type 0
IsRefused (refused e) = Unit
IsRefused (applied n e) = ⊥
IsRefused (duplicate n e) = ⊥

admit_locked-pending :
    (q : Packet) (a : Applier)
    → a.pending_epoch ≢ 0
    → admit_locked q a ≡ (rejected Error.apply_in_progress, a)
unfolding admit_locked
admit_locked-pending q a h =
    if_cases (λ (r : Admission × Applier). r ≡ (rejected Error.apply_in_progress, a))
      (not (a.pending_epoch == 0)) (λ _. refl) (λ e. absurd (ground arith))

admit_after-Wedges :
    (q : Packet) (a : Applier)
    → q.epoch ≢ 0
    → Wedges a q
    → admit_after (current_cursor a q) q (record a { pending_epoch = q.epoch })
      ≡ (rejected Error.packet_shape, record a { pending_epoch = q.epoch })
unfolding admit_after
admit_after-Wedges q a set w =
    if_cases P (is_duplicate (current_cursor a q) q) (λ d. absurd (no_duplicate q a set w.begins d))
      λ _.
        if_cases P (q.full && not (q.base_sequence == 0)) (λ _. refl)
          λ e. absurd (shape q.full (q.base_sequence == 0) w.full w.based e)
  where
    P : Admission × Applier → Type 0
    P r = r ≡ (rejected Error.packet_shape, record a { pending_epoch = q.epoch })

    shape : (x y : Bool) → x ≡ true → y ≡ false → (x && not y) ≡ false → ⊥
    shape x y d e f = ground arith

admit_locked-Wedges :
    (q : Packet) (a : Applier)
    → q.epoch ≢ 0
    → Wedges a q
    → admit_locked q a ≡ (rejected Error.packet_shape, record a { pending_epoch = q.epoch })
unfolding admit_locked is_busy
admit_locked-Wedges q a set w =
    if_cases P (not (a.pending_epoch == 0)) (λ e. absurd (ground (arith, w.idle)))
      λ _.
        if_cases P (is_busy a q.stream)
          (λ e. absurd (false_true (ap (any (equal_streams q.stream)) w.alone) e))
          λ _.
            if_cases P (not (a.epoch == 0) && not (q.epoch == a.epoch))
              (λ _.
                if_cases P (not q.full) (λ e. absurd (ground (arith, w.full)))
                  λ _.
                    if_cases P (ltb 0 (length a.inflight))
                      (λ e. absurd (ground (arith, ap length w.alone)))
                      λ _. admit_after-Wedges q a set w)
              λ same.
                if_cases P (a.epoch == 0)
                  (λ _.
                    if_cases P (not q.full || ltb 0 (length a.inflight))
                      (λ e. absurd (ground (arith, w.full, ap length w.alone)))
                      λ _. admit_after-Wedges q a set w)
                  λ later. absurd (ground (arith, w.begins))
  where
    P : Admission × Applier → Type 0
    P r = r ≡ (rejected Error.packet_shape, record a { pending_epoch = q.epoch })

    false_true : {b : Bool} → b ≡ false → b ≡ true → ⊥
    false_true e f = cc

module _ {S : Type 0} (o : Settings S) (codec : Codec) where
  -- While an epoch is pending, every packet is refused.
  apply-pending :
      (p : Packet) (a : Applier) (s : S)
      → a.pending_epoch ≢ 0
      → (e : Error) × (apply o codec p a s ≡ (refused e, a, s))
  unfolding apply admit
  apply-pending p a s h = go (checked o p)
    where
      go :
          (r : Error ⊎ Packet)
          → (e : Error) × (apply_admitted o codec (admit_checked r a) s ≡ (refused e, a, s))
      go (inl e) = (e, refl)
      go (inr q) = (
        Error.apply_in_progress,
        ap (λ r. apply_admitted o codec r s) (admit_locked-pending q a h),
      )

  apply_all-pending :
      (ps : List Packet) (a : Applier) (s : S)
      → a.pending_epoch ≢ 0
      → All IsRefused (apply_all o codec ps a s).0
        × ((apply_all o codec ps a s).1 ≡ a)
        × ((apply_all o codec ps a s).2 ≡ s)
  unfolding apply_all
  apply_all-pending [] a s h = (tt, refl, refl)
  apply_all-pending (p ∷ ps) a s h =
      let r = apply-pending p a s h in
      let rest = apply_all-pending ps a s h in rw (r.1) ((tt, rest.0), rest.1, rest.2)

  -- A full packet that begins an epoch and has a base sequence is refused, and so is every packet
  -- after it, for ever: the epoch that the admission has noted as pending is never cleared. The
  -- stream's consumers see none of them.
  pub apply_all-Wedges :
      (p q : Packet) (ps : List Packet) (a : Applier) (s : S)
      → checked o p ≡ inr q
      → Wedges a q
      → All IsRefused (apply_all o codec (p ∷ ps) a s).0
        × ((apply_all o codec (p ∷ ps) a s).1 ≡ record a { pending_epoch = p.epoch })
        × ((apply_all o codec (p ∷ ps) a s).2 ≡ s)
  unfolding apply_all apply admit
  apply_all-Wedges p q ps a s passed w =
      let k = checked-Passes o p passed in
      let rest = apply_all-pending ps (record a { pending_epoch = q.epoch }) s k.epoch_set in
      let same = ap (λ (x : Packet). x.epoch) k.same in
      rw (passed, admit_locked-Wedges q a k.epoch_set w)
        ((tt, rest.0), rest.1 ∙ ap (λ n. record a { pending_epoch = n }) same, rest.2)
