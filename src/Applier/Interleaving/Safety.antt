-- ===== src/Applier/Interleaving/Safety.antt =====
-- skillsync/applier.go: the admissions of applications that overlap.
use roost_skill.Common.{
  true, false, List, [], ◌∷◌, Option, ◌≡◌, ◌≢◌, refl, sym, ap, subst, ◌∙◌, ◌⊎◌, inl, inr, arith,
  ◌==◌, any, length, ==_iff, All, All-implies, Bool-cases,
}
use roost_skill.Applier.{
  Applier, Settings, Admission, admitted, already_applied, rejected, is_busy, current_cursor,
  is_duplicate, admit_locked, admit, checked, admit_checked, new_state,
}
use roost_skill.Applier.Consumers.{Error}
use roost_skill.Applier.Records.{CommitState}
use roost_skill.Applier.Application.{finish, delete_stream}
use roost_skill.Applier.Entrance.{
  Admits, held, Follows, Entry, Admitted, admit_locked_lem, pending_for,
}
use roost_skill.Applier.Outcomes.{checked-Passes}
use roost_skill.Applier.Order.{current_cursor-known}
use roost_skill.Applier.Streams.{Packet, equal_streams}
use roost_skill.Applier.Interleaving.{
  Site, Runs, without, TurnsAway, Step, begin, turn_away, end, Reach, here, next, Holds, IsSafe,
}
use roost_skill.Applier.Interleaving.Running.{
  streams, streams-without, without-Distinct, without-All, Runs-All, alone-without, finish_inflight,
  calm,
}

-- In a quiet applier a running packet is of the applier's epoch, and is safe as long as its stream's
-- cursor is not moved.
Holds-moved :
    (a b : Applier) (rs ss : List Packet) (r : Packet)
    → a.pending_epoch ≡ 0
    → b.pending_epoch ≡ 0
    → b.epoch ≡ a.epoch
    → b.sequences r.stream ≡ a.sequences r.stream
    → Holds a rs r
    → Holds b ss r
Holds-moved a b rs ss r idle calm epoch cursor h = go h.3
  where
    go :
        ((a.pending_epoch ≡ 0) × (a.epoch ≡ r.epoch))
          ⊎ ((a.pending_epoch ≡ r.epoch) × (length rs ≡ 1))
        → Holds b ss r
    go (inr k) = absurd (h.0 (sym k.0 ∙ idle))
    go (inl k) =
        let same : current_cursor a r ≡ current_cursor b r =
          current_cursor-known r a k.1
          ∙ sym cursor
          ∙ sym (current_cursor-known r b (epoch ∙ k.1)) in
        (
          h.0,
          subst (λ c. is_duplicate c r ≡ false) same h.1,
          subst (λ c. Follows c r) same h.2,
          inl (calm, epoch ∙ k.1),
        )

end-Holds :
    (q : Packet) (result : Option CommitState) (a : Applier) (rs : List Packet)
    → Runs q rs
    → All (Holds a rs) rs
    → All (Holds (finish q result a) (without q.stream rs)) (without q.stream rs)
end-Holds q result a rs x h = go (Runs-All (Holds a rs) x h)
  where
    go : Holds a rs q → All (Holds (finish q result a) (without q.stream rs)) (without q.stream rs)
    go (set, _, _, inr k) = rw (alone-without rs x k.1) tt
    go (set, _, _, inl k) =
        let left = calm q a k.0 set result in
        All-implies (λ r. Holds a rs r × (equal_streams q.stream r.stream ≡ false))
          (Holds (finish q result a) (without q.stream rs)) (without q.stream rs)
          (λ r m.
            Holds-moved a (finish q result a) rs (without q.stream rs) r k.0 left.1 left.0
              (left.2 r.stream m.1) m.0)
          (without-All (Holds a rs) q.stream rs h)

-- What an admission shows.
abbrev Begins : Applier → Admission × Applier → Type 0
Begins a (admitted q, b) = (q.epoch ≢ 0) × Admits a q × (b ≡ held q a)
Begins a (already_applied n e, b) = b ≡ a
Begins a (rejected e, b) = (b ≡ a) ⊎ ((a.inflight ≡ []) × (b.inflight ≡ []))

admit-Begins : {S : Type 0} (o : Settings S) (p : Packet) (a : Applier) → Begins a (admit o p a)
unfolding admit
admit-Begins o p a = go (checked o p) refl
  where
    locked : (q : Packet) (r : Admission × Applier) → q.epoch ≢ 0 → Admitted q a r → Begins a r
    locked q (rejected e, b) set (inl u) = inl u
    locked q (rejected e, b) set (inr w) =
        let x = w.0 in inr (x.alone, ap (λ (y : Applier). y.inflight) w.2 ∙ x.alone)
    locked q (already_applied n e, b) set m = m.0
    locked q (admitted q', b) set m =
        subst (λ (x : Packet). (x.epoch ≢ 0) × Admits a x × (b ≡ held x a)) (sym m.1)
          (set, m.0, m.2)

    go : (r : Error ⊎ Packet) → checked o p ≡ r → Begins a (admit_checked r a)
    go (inl e) u = inl refl
    go (inr q) u =
        let k = checked-Passes o p u in
        locked q (admit_locked q a) k.epoch_set (admit_locked_lem q a k.epoch_set)

no_streams : (rs : List Packet) → [] ≡ streams rs → rs ≡ []
no_streams [] e = refl
no_streams (r ∷ rs) e = cc

begin-Holds :
    (q : Packet) (a : Applier) (rs : List Packet)
    → q.epoch ≢ 0
    → Admits a q
    → a.inflight ≡ streams rs
    → All (Holds a rs) rs
    → All (Holds (held q a) (q ∷ rs)) (q ∷ rs)
unfolding current_cursor
begin-Holds q a rs set h listed old = go (Bool-cases (a.epoch == q.epoch)) h.enters
  where
    P : List Packet → Type 0
    P ss = All (Holds (held q a) (q ∷ ss)) (q ∷ ss)

    go : ((a.epoch == q.epoch) ≡ true) ⊎ ((a.epoch == q.epoch) ≡ false) → Entry a q → P rs
    go (inl same) e =
        let calm : pending_for q a ≡ 0 = rw same h.idle in
        (
          (set, h.fresh, h.follows, inl (calm, (==_iff a.epoch q.epoch).0 same)),
          All-implies (Holds a rs) (Holds (held q a) (q ∷ rs)) rs
              (λ r m. Holds-moved a (held q a) rs (q ∷ rs) r h.idle calm refl refl m) old,
        )
    go (inr other) (inl e) = absurd (ground arith)
    go (inr other) (inr e) =
        let pending : pending_for q a ≡ q.epoch = rw other refl in
        subst P (sym (no_streams rs (sym e.1 ∙ listed)))
          ((set, h.fresh, h.follows, inr (pending, refl)), tt)

begin-IsSafe :
    {S : Type 0} (o : Settings S) (p q : Packet) (a b : Applier) (rs : List Packet)
    → admit o p a ≡ (admitted q, b)
    → IsSafe (record { applier = a; running = rs })
    → IsSafe (record { applier = b; running = q ∷ rs })
unfolding is_busy
begin-IsSafe o p q a b rs run safe =
    let m = subst (Begins a) run (admit-Begins o p a) in
    let free = m.1.free in
    subst (λ x. IsSafe (record { applier = x; running = q ∷ rs })) (sym m.2)
      (record {
        inflight = ap (λ ss. q.stream ∷ ss) safe.inflight;
        distinct = (ap (any (equal_streams q.stream)) (sym safe.inflight) ∙ free, safe.distinct);
        holds = begin-Holds q a rs m.0 m.1 safe.inflight safe.holds;
      })

turn_away-IsSafe :
    {S : Type 0} (o : Settings S) (p : Packet) (r : Admission) (a b : Applier) (rs : List Packet)
    → admit o p a ≡ (r, b)
    → TurnsAway r
    → IsSafe (record { applier = a; running = rs })
    → IsSafe (record { applier = b; running = rs })
turn_away-IsSafe o p r a b rs run away safe = go r away (subst (Begins a) run (admit-Begins o p a))
  where
    same : b ≡ a → IsSafe (record { applier = b; running = rs })
    same u = subst (λ x. IsSafe (record { applier = x; running = rs })) (sym u) safe

    go :
        (r : Admission)
        → TurnsAway r
        → Begins a (r, b)
        → IsSafe (record { applier = b; running = rs })
    go (admitted q) away m = absurd away
    go (already_applied n e) away m = same m
    go (rejected e) away (inl u) = same u
    go (rejected e) away (inr m) =
        subst (λ ss. IsSafe (record { applier = b; running = ss }))
          (sym (no_streams rs (sym m.0 ∙ safe.inflight)))
          (record { inflight = m.1; distinct = tt; holds = tt })

end-IsSafe :
    (q : Packet) (result : Option CommitState) (a : Applier) (rs : List Packet)
    → Runs q rs
    → IsSafe (record { applier = a; running = rs })
    → IsSafe (record { applier = finish q result a; running = without q.stream rs })
end-IsSafe q result a rs x safe = record {
  inflight =
      finish_inflight q result a
      ∙ ap (delete_stream q.stream) safe.inflight
      ∙ sym (streams-without q.stream rs);
  distinct = without-Distinct q.stream rs safe.distinct;
  holds = end-Holds q result a rs x safe.holds;
}

Step-IsSafe : {S : Type 0} (o : Settings S) {x y : Site} → Step o x y → IsSafe x → IsSafe y
Step-IsSafe o (begin p q a b rs run) safe = begin-IsSafe o p q a b rs run safe
Step-IsSafe o (turn_away p r a b rs run away) safe = turn_away-IsSafe o p r a b rs run away safe
Step-IsSafe o (end q result a rs x) safe = end-IsSafe q result a rs x safe

abbrev pub new_site : Site
new_site = record { applier = new_state; running = [] }

-- However applications overlap, from a new applier on: the streams in flight are those of the
-- applications that run, no two of which are of one stream; and a packet whose application runs
-- still follows its stream's cursor, so what its admission found is true when it ends. It is of the
-- applier's epoch, or runs alone in the epoch that is pending.
pub Reach-IsSafe : {S : Type 0} (o : Settings S) {x : Site} → Reach o new_site x → IsSafe x
Reach-IsSafe o here = record { inflight = refl; distinct = tt; holds = tt }
Reach-IsSafe o (next r st) = Step-IsSafe o st (Reach-IsSafe o r)
