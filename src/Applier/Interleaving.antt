-- ===== src/Applier/Interleaving.antt =====
-- skillsync/applier.go: applications that overlap. A step is one locked part of Apply: an admission,
-- or the end of an application that was admitted, with whatever the consumers said.
pub mod Running
pub mod Safety
use roost_skill.Common.{
  ℕ, ◌+◌, Bool, true, false, if◌then◌else◌, not, List, [], ◌∷◌, Option, none, some, map, ◌≡◌, ◌≢◌,
  refl, sym, ap, subst, ◌∙◌, ◌⊎◌, inl, inr, arith, ◌==◌, any, length, filter, if_cases, ==_iff, All,
  Bool-cases,
}
use roost_skill.Applier.{
  Applier, Settings, Admission, admitted, already_applied, rejected, is_busy, current_cursor,
  is_duplicate, admit_locked, admit, checked, admit_checked, new_state,
}
use roost_skill.Applier.Consumers.{Error}
use roost_skill.Applier.Records.{CommitState}
use roost_skill.Applier.Application.{
  finish, delete_stream, enter_epoch, clear_pending, advance, run_commit, set_cursor,
}
use roost_skill.Applier.Entrance.{
  Admits, held, Follows, Entry, Wedges, Admitted, admit_locked_lem, pending_for,
}
use roost_skill.Applier.Outcomes.{Passes, checked-Passes}
use roost_skill.Applier.Order.{run_commit-kept}
use roost_skill.Applier.Streams.{Stream, Packet, StreamCursor, equal_streams}

-- The applier, and the packets whose application has begun and not ended.
pub record Site : Type 0 where
  pub applier : Applier
  pub running : List Packet

pub data Runs (q : Packet) : List Packet → Type 0 where
  first : {rs : List Packet} → Runs q (q ∷ rs)
  later : {r : Packet} {rs : List Packet} → Runs q rs → Runs q (r ∷ rs)

unfoldable pub without : Stream → List Packet → List Packet
without s rs = filter (λ r. not (equal_streams s r.stream)) rs

abbrev TurnsAway : Admission → Type 0
TurnsAway (admitted q) = ⊥
TurnsAway (already_applied n e) = Unit
TurnsAway (rejected e) = Unit

pub data Step {S : Type 0} (o : Settings S) : Site → Site → Type 0 where
  begin :
      (p q : Packet) (a b : Applier) (rs : List Packet)
      → admit o p a ≡ (admitted q, b)
      → Step o (record { applier = a; running = rs }) (record { applier = b; running = q ∷ rs })
  turn_away :
      (p : Packet) (r : Admission) (a b : Applier) (rs : List Packet)
      → admit o p a ≡ (r, b)
      → TurnsAway r
      → Step o (record { applier = a; running = rs }) (record { applier = b; running = rs })
  end :
      (q : Packet) (result : Option CommitState) (a : Applier) (rs : List Packet)
      → Runs q rs
      → Step o
          (record { applier = a; running = rs })
          (record { applier = finish q result a; running = without q.stream rs })

pub data Reach {S : Type 0} (o : Settings S) (x : Site) : Site → Type 0 where
  here : Reach o x x
  next : {y z : Site} → Reach o x y → Step o y z → Reach o x z

-- No two of the packets are of one stream.
abbrev pub Distinct : List Packet → Type 0
Distinct [] = Unit
Distinct (q ∷ rs) =
    (any (equal_streams q.stream) (map (λ (r : Packet). r.stream) rs) ≡ false) × Distinct rs

-- A running packet still follows its stream's cursor, in the applier's epoch or, alone, in the
-- pending one.
abbrev pub Holds : Applier → List Packet → Packet → Type 0
Holds a rs q =
    (q.epoch ≢ 0)
    × (is_duplicate (current_cursor a q) q ≡ false)
    × Follows (current_cursor a q) q
    × (((a.pending_epoch ≡ 0) × (a.epoch ≡ q.epoch))
        ⊎ ((a.pending_epoch ≡ q.epoch) × (length rs ≡ 1)))

pub record IsSafe (x : Site) : Type 0 where
  pub inflight : x.applier.inflight ≡ map (λ (r : Packet). r.stream) x.running
  pub distinct : Distinct x.running
  pub holds : All (Holds x.applier x.running) x.running
