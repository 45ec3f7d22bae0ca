-- ===== src/Applier/Outcomes.antt =====
-- skillsync/applier.go: the outcomes of Apply.
use text.Mathlib.Text.{◌==◌ as str_eq}
use roost_skill.Common.{
  ℕ, true, not, ◌||◌, Option, none, some, ◌≡◌, ◌≢◌, refl, sym, ap, subst, ◌∙◌, ◌⊎◌, inl, inr, arith,
  ◌==◌, if_cases, ==_iff, String,
}
use roost_skill.Applier.{
  Applier, Settings, Admission, admitted, already_applied, rejected, current_cursor, is_duplicate,
  admit_locked, admit, checked, Migrator, migrate, migrated, named, admit_checked, contains,
}
use roost_skill.Applier.Consumers.{Error, Prepared, ready, failed, commit_or_roll_back}
use roost_skill.Applier.Records.{CommitState, Codec, PreparedRecord, apply_record}
use roost_skill.Applier.Application.{
  advance, run_commit, Outcome, applied, duplicate, refused, apply, apply_admitted, end_apply,
  after_commit,
}
use roost_skill.Applier.Entrance.{Admits, held, Wedges, Admitted, admit_locked_lem}
use roost_skill.Applier.Cursors.{started, finish-failed, finish-applied}
use roost_skill.Applier.Streams.{Packet}

-- The packet as it is after a migration to a version.
abbrev pub Migrates : ℕ → Packet → Packet → Type 0
Migrates version p q = q ≡ record p { payload = q.payload; schema_version = version }

-- What the checks before the lock keep of a packet, and promise of it.
pub record Passes (version : ℕ) (p q : Packet) : Type 0 where
  pub same : Migrates version p q
  pub epoch_set : q.epoch ≢ 0
  pub sequence_set : q.sequence ≢ 0

abbrev WhenRight : (Packet → Type 0) → Error ⊎ Packet → Type 0
WhenRight P (inl e) = Unit
WhenRight P (inr q) = P q

migrate-Migrates :
    (m : Option Migrator) (p : Packet) (version : ℕ)
    → WhenRight (Migrates version p) (migrate m p version)
migrate-Migrates none p version = tt
migrate-Migrates (some m) p version = go (m p version)
  where
    go : (r : Error ⊎ String) → WhenRight (Migrates version p) (migrated p version r)
    go (inl e) = tt
    go (inr payload) = refl

named-Passes :
    (version : ℕ) (p : Packet) (r : Error ⊎ Packet)
    → p.epoch ≢ 0
    → WhenRight (Migrates version p) r
    → WhenRight (Passes version p) (named r)
named-Passes version p (inl e) h m = tt
named-Passes version p (inr q) h m =
    if_cases (WhenRight (Passes version p)) (str_eq q.stream.topic "" || q.sequence == 0) (λ _. tt)
      λ e. record {
        same = m;
        epoch_set = λ z. h (sym (ap (λ (x : Packet). x.epoch) m) ∙ z);
        sequence_set = λ z. ground arith;
      }

checked-WhenRight :
    {S : Type 0} (o : Settings S) (p : Packet) → WhenRight (Passes o.schema_version p) (checked o p)
unfolding checked
checked-WhenRight o p =
    if_cases P (not (p.observer == o.observer)) (λ _. tt)
      λ _.
        if_cases P (p.epoch == 0) (λ _. tt)
          λ e.
            if_cases P (not (contains o.supported p.schema_version)) (λ _. tt)
              λ _.
                if_cases P (not (p.schema_version == o.schema_version))
                  (λ _.
                    named-Passes o.schema_version p (migrate o.migrator p o.schema_version)
                      (λ z. ground arith) (migrate-Migrates o.migrator p o.schema_version))
                  λ v.
                    named-Passes o.schema_version p (inr p) (λ z. ground arith)
                      λ i. record p {
                        schema_version =
                            (==_iff p.schema_version o.schema_version).0 (ground arith) i;
                      }
  where
    P : Error ⊎ Packet → Type 0
    P = WhenRight (Passes o.schema_version p)

pub checked-Passes :
    {S : Type 0} (o : Settings S) (p : Packet) {q : Packet}
    → checked o p ≡ inr q
    → Passes o.schema_version p q
checked-Passes o p {q} e = subst (WhenRight (Passes o.schema_version p)) e (checked-WhenRight o p)

module _ {S : Type 0} (o : Settings S) (p : Packet) (a : Applier) where
  abbrev pub Refuses : Error → Applier → Type 0
  Refuses e b =
      (b ≡ a)
      ⊎ ((q : Packet) × (checked o p ≡ inr q)
          × Wedges a q
          × (e ≡ Error.packet_shape)
          × (b ≡ record a { pending_epoch = q.epoch }))

  abbrev pub Repeats : Applier → Type 0
  Repeats b =
      (q : Packet) × (checked o p ≡ inr q)
      × (b ≡ a)
      × (is_duplicate (current_cursor a q) q ≡ true)
      × (a.epoch ≡ q.epoch)

  abbrev pub Applies : ℕ → ℕ → Applier → Type 0
  Applies n e b =
      (q : Packet) × (c : CommitState) × (checked o p ≡ inr q)
      × Admits a q
      × (n ≡ q.sequence)
      × (e ≡ q.epoch)
      × (b ≡ advance q (run_commit c (started q a)))

  abbrev pub Ends : Outcome × Applier × S → Type 0
  Ends (refused e, b, t) = Refuses e b
  Ends (duplicate n e, b, t) = Repeats b
  Ends (applied n e, b, t) = Applies n e b

  end_apply-Ends :
      (q : Packet)
      → checked o p ≡ inr q
      → Admits a q
      → (r : Prepared S (PreparedRecord S)) → Ends (end_apply q (held q a) r)
  unfolding end_apply
  end_apply-Ends q e h (failed x s) = inl (finish-failed q a h)
  end_apply-Ends q e h (ready r s) = committed (commit_or_roll_back r.transaction s)
    where
      committed : (t : Option Error × S) → Ends (after_commit q r.commit_state (held q a) t)
      committed (some x, t) = inl (finish-failed q a h)
      committed (none, t) =
          (q, r.commit_state, e, h, refl, refl, finish-applied q a r.commit_state h)

  apply_admitted-Ends :
      (codec : Codec) (s : S) (q : Packet) (r : Admission × Applier)
      → checked o p ≡ inr q
      → Admitted q a r
      → Ends (apply_admitted o codec r s)
  unfolding apply_admitted
  apply_admitted-Ends codec s q (rejected x, b) e (inl u) = inl u
  apply_admitted-Ends codec s q (rejected x, b) e (inr w) = inr (q, e, w.0, w.1, w.2)
  apply_admitted-Ends codec s q (already_applied n k, b) e m = (q, e, m.0, m.1, m.2)
  apply_admitted-Ends codec s q (admitted q', b) e m =
      rw (m.1, m.2) (end_apply-Ends q e m.0 (apply_record o codec q (held q a) s))

  -- Every call of Apply.
  pub apply-Ends : (codec : Codec) (s : S) → Ends (apply o codec p a s)
  unfolding apply admit
  apply-Ends codec s = go (checked o p) refl
    where
      go :
          (r : Error ⊎ Packet)
          → checked o p ≡ r
          → Ends (apply_admitted o codec (admit_checked r a) s)
      go (inl x) e = inl refl
      go (inr q) e =
          apply_admitted-Ends codec s q (admit_locked q a) e
            (admit_locked_lem q a (λ z. (checked-Passes o p e).epoch_set z))
