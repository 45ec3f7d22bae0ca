-- ===== src/Applier/Interleaving/Running.antt =====
-- skillsync/applier.go: the running packets, and what the end of an application leaves of the applier.
use roost_skill.Common.{
  Bool, false, not, List, [], ◌∷◌, Option, none, some, map, ◌≡◌, ◌≢◌, refl, ap, ◌∙◌, arith, ◌==◌,
  any, length, if_cases, if_both, All,
}
use roost_skill.Applier.{Applier}
use roost_skill.Applier.Records.{CommitState}
use roost_skill.Applier.Application.{
  finish, delete_stream, enter_epoch, clear_pending, advance, run_commit, set_cursor,
}
use roost_skill.Applier.Cursors.{equal_streams_refl}
use roost_skill.Applier.Order.{run_commit-kept}
use roost_skill.Applier.Streams.{Stream, Packet, StreamCursor, equal_streams}
use roost_skill.Applier.Interleaving.{Runs, first, later, without, Distinct}

abbrev pub streams : List Packet → List Stream
streams = map (λ (r : Packet). r.stream)

pub streams-without :
    (s : Stream) (rs : List Packet) → streams (without s rs) ≡ delete_stream s (streams rs)
unfolding without delete_stream
streams-without s [] = refl
streams-without s (r ∷ rs) = ground (arith, streams-without s rs)

any-without :
    (p : Stream → Bool) (s : Stream) (rs : List Packet)
    → any p (streams rs) ≡ false
    → any p (streams (without s rs)) ≡ false
unfolding without
any-without p s [] h = refl
any-without p s (r ∷ rs) h = ground (arith, any-without p s rs)

pub without-Distinct : (s : Stream) (rs : List Packet) → Distinct rs → Distinct (without s rs)
unfolding without
without-Distinct s [] d = tt
without-Distinct s (r ∷ rs) d =
    if_cases Distinct (not (equal_streams s r.stream))
      (λ _. (any-without (equal_streams r.stream) s rs d.0, without-Distinct s rs d.1))
      (λ _. without-Distinct s rs d.1)

-- What holds of all packets holds of those that are kept, which are of other streams.
pub without-All :
    (P : Packet → Type 0) (s : Stream) (rs : List Packet)
    → All P rs
    → All (λ r. P r × (equal_streams s r.stream ≡ false)) (without s rs)
unfolding without
without-All P s [] h = tt
without-All P s (r ∷ rs) h =
    if_cases (All (λ r. P r × (equal_streams s r.stream ≡ false))) (not (equal_streams s r.stream))
      (λ e. ((h.0, ground arith), without-All P s rs h.1)) (λ _. without-All P s rs h.1)

pub Runs-All : (P : Packet → Type 0) {q : Packet} {rs : List Packet} → Runs q rs → All P rs → P q
Runs-All P first h = h.0
Runs-All P (later r) h = Runs-All P r h.1

pub alone-without :
    {q : Packet} (rs : List Packet) → Runs q rs → length rs ≡ 1 → without q.stream rs ≡ []
unfolding without
alone-without [] x one = absurd (omega arith)
alone-without (q ∷ []) first one = rw (equal_streams_refl q.stream) refl
alone-without (q ∷ []) (later x) one = elim x [ ]
alone-without (r ∷ t ∷ rs) x one = absurd (omega arith)

clear_inflight : (q : Packet) (b : Applier) → (clear_pending q b).inflight ≡ b.inflight
unfolding clear_pending
clear_inflight q b =
    if_both (λ (x : Applier). x.inflight ≡ b.inflight) (b.pending_epoch == q.epoch) refl refl

enter_inflight : (q : Packet) (b : Applier) → (enter_epoch q b).inflight ≡ b.inflight
unfolding enter_epoch
enter_inflight q b =
    if_both (λ (x : Applier). x.inflight ≡ b.inflight) (not (b.pending_epoch == q.epoch)) refl
      (if_both (λ (x : Applier). x.inflight ≡ b.inflight) (b.epoch == q.epoch) refl refl)

module _ (q : Packet) (b : Applier) where
  advance_inflight : (advance q b).inflight ≡ b.inflight
  unfolding advance
  advance_inflight = refl

  advance_pending : (advance q b).pending_epoch ≡ b.pending_epoch
  unfolding advance
  advance_pending = refl

  advance_epoch : (advance q b).epoch ≡ b.epoch
  unfolding advance
  advance_epoch = refl

  advance_other :
      (s : Stream) → equal_streams q.stream s ≡ false → (advance q b).sequences s ≡ b.sequences s
  unfolding advance set_cursor
  advance_other s other = rw other refl

pub finish_inflight :
    (q : Packet) (result : Option CommitState) (a : Applier)
    → (finish q result a).inflight ≡ delete_stream q.stream a.inflight
unfolding finish
finish_inflight q none a =
    clear_inflight q (record a { inflight = delete_stream q.stream a.inflight })
finish_inflight q (some c) a =
    let a' : Applier = record a { inflight = delete_stream q.stream a.inflight } in
    clear_inflight q (advance q (run_commit c (enter_epoch q a')))
    ∙ advance_inflight q (run_commit c (enter_epoch q a'))
    ∙ (run_commit-kept c (enter_epoch q a')).2
    ∙ enter_inflight q a'

module _ (q : Packet) (a : Applier) (idle : a.pending_epoch ≡ 0) (set : q.epoch ≢ 0) where
  clear_calm : clear_pending q a ≡ a
  unfolding clear_pending
  clear_calm =
      if_cases (λ x. x ≡ a) (a.pending_epoch == q.epoch) (λ e. absurd (ground arith)) (λ _. refl)

  enter_calm : enter_epoch q a ≡ a
  unfolding enter_epoch
  enter_calm =
      if_cases (λ x. x ≡ a) (not (a.pending_epoch == q.epoch)) (λ _. refl)
        (λ e. absurd (ground arith))

module _ (q : Packet) (a : Applier) (idle : a.pending_epoch ≡ 0) (set : q.epoch ≢ 0) where
  abbrev left : Applier
  left = record a { inflight = delete_stream q.stream a.inflight }

  calm_failed : finish q none a ≡ left
  unfolding finish
  calm_failed = clear_calm q left idle set

  calm_applied : (c : CommitState) → finish q (some c) a ≡ advance q (run_commit c left)
  unfolding finish
  calm_applied c =
      ap (λ b. clear_pending q (advance q (run_commit c b))) (enter_calm q left idle set)
      ∙ clear_calm q (advance q (run_commit c left))
          (advance_pending q (run_commit c left) ∙ (run_commit-kept c left).3 ∙ idle) set

  -- What the end of an application in the applier's own epoch leaves.
  pub calm :
      (result : Option CommitState)
      → ((finish q result a).epoch ≡ a.epoch)
        × ((finish q result a).pending_epoch ≡ 0)
        × ((s : Stream)
            → equal_streams q.stream s ≡ false
            → (finish q result a).sequences s ≡ a.sequences s)
  calm none = rw calm_failed (refl, idle, λ s other. refl)
  calm (some c) = rw (calm_applied c) (
    advance_epoch q (run_commit c left) ∙ (run_commit-kept c left).0,
    advance_pending q (run_commit c left) ∙ (run_commit-kept c left).3 ∙ idle,
    λ s other.
        advance_other q (run_commit c left) s other
        ∙ ap (λ (m : Stream → StreamCursor). m s) (run_commit-kept c left).1,
  )
