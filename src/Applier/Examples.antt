-- ===== src/Applier/Examples.antt =====
-- Tests of the applier, and its theorems at concrete packets.
use text.Mathlib.Text.{◌==◌ as str_eq}
use roost_skill.Common.{
  ℕ, true, false, if◌then◌else◌, List, [], ◌∷◌, Option, none, some, ◌≡◌, ◌≤◌, refl, inl, inr, All,
}
use roost_skill.Common.Int.{ℤ, pos}
use roost_skill.Applier.{Applier, Settings, new_state, checked, admit, new_applier}
use roost_skill.Applier.Consumers.{prepare, Error, absent, direct}
use roost_skill.Applier.Records.{Codec}
use roost_skill.Applier.Application.{
  applied, duplicate, refused, apply, sequence, finish, run_commit, set_cursor, set_number,
}
use roost_skill.Applier.Entrance.{Wedges}
use roost_skill.Applier.Order.{apply-InOrder, apply-CursorsAreValid, CursorsAreValid, Moves}
use roost_skill.Applier.Repetition.{apply-apply}
use roost_skill.Applier.Wedge.{apply_all, apply_all-Wedges, IsRefused}
use roost_skill.Applier.Interleaving.{Reach, here, next, begin, IsSafe}
use roost_skill.Applier.Interleaving.Safety.{Reach-IsSafe, new_site}
use roost_skill.Applier.Streams.{
  equal_streams, Stream, Packet, Header, Mutation, StateRecord, RecordKind, state_full, state_delta,
}

-- The consumer keeps a log of the mutations that it was given.
abbrev log_delta : ℤ → Mutation → List ℕ → Option Error × List ℕ
log_delta key m log = (none, m.sequence ∷ log)

abbrev settings : Settings (List ℕ)
settings = record {
  observer = 1;
  schema_version = 3;
  supported = record { min = 3; max = 3 };
  migrator = none;
  manifest_consumer = absent;
  state_snapshots = absent;
  state_deltas = direct log_delta;
  presentation_resets = absent;
  presentation_events = absent;
}

abbrev header : RecordKind → Header
header kind = record { schema_version = 3; kind = kind; presentation_digest = "" }

abbrev full_record : StateRecord
full_record = record {
  header = header state_full;
  snapshot = some (record { latest_state_mutation_sequence = 10; rest = "" });
  delta = none;
}

abbrev delta_record : StateRecord
delta_record = record {
  header = header state_delta;
  snapshot = none;
  delta = some (record { sequence = 11; kind = "clock"; rest = "" });
}

abbrev codec : Codec
codec = record {
  unmarshal_header =
      λ text. some (header (if str_eq text "delta" then state_delta else state_full));
  manifest_decoder = λ text. (none, false);
  state_decoder = λ text. (some (if str_eq text "delta" then delta_record else full_record), true);
  presentation_decoder = λ text. (none, false);
}

abbrev stream : Stream
stream = record { topic = "roost.skill.state"; key = pos 1 }

abbrev full_packet : Packet
full_packet = record {
  observer = 1;
  stream = stream;
  epoch = 2;
  sequence = 5;
  base_sequence = 0;
  full = true;
  schema_version = 3;
  payload = "full";
}

abbrev delta_packet : Packet
delta_packet = record full_packet {
  sequence = 6;
  base_sequence = 5;
  full = false;
  payload = "delta";
}

abbrev based_packet : Packet
based_packet = record full_packet { base_sequence = 4 }

abbrev synced : Applier
synced = (apply settings codec full_packet new_state []).1

full_first : apply settings codec full_packet new_state [] ≡ (applied 5 2, synced, [])
unfolding apply prepare finish run_commit equal_streams set_cursor set_number
full_first = refl

delta_next :
    apply settings codec delta_packet synced []
    ≡ (applied 6 2, (apply settings codec delta_packet synced []).1, 11 ∷ [])
unfolding apply prepare finish run_commit equal_streams set_cursor set_number
delta_next = refl

delta_first : (apply settings codec delta_packet new_state []).0 ≡ refused Error.epoch_mismatch
unfolding apply
delta_first = refl

bad_version :
    new_applier (record settings { supported = record { min = 4; max = 9 } })
    ≡ inl Error.schema_mismatch
unfolding new_applier
bad_version = refl

new_state-CursorsAreValid : CursorsAreValid new_state
new_state-CursorsAreValid s = inl (refl, refl)

abbrev applied_delta : Applier
applied_delta = (apply settings codec delta_packet synced []).1

synced-CursorsAreValid : CursorsAreValid synced
synced-CursorsAreValid =
    apply-CursorsAreValid settings codec full_packet new_state [] new_state-CursorsAreValid

apply-CursorsAreValid_example : CursorsAreValid (apply settings codec full_packet new_state []).1
apply-CursorsAreValid_example =
    apply-CursorsAreValid settings codec full_packet new_state [] new_state-CursorsAreValid

apply-InOrder_example :
    Moves settings codec delta_packet synced [] (apply settings codec delta_packet synced [])
apply-InOrder_example = apply-InOrder settings codec delta_packet synced [] synced-CursorsAreValid

-- After the delta, the full packet before it comes again.
apply-apply_example :
    (let later = (apply_all settings codec (delta_packet ∷ []) synced []).1 in
      (full_packet.sequence ≤ sequence full_packet.stream later)
      × (apply settings codec full_packet later []
          ≡ (duplicate (sequence full_packet.stream later) full_packet.epoch, later, [])))
apply-apply_example =
    apply-apply settings codec full_packet (delta_packet ∷ []) new_state [] {n = 5} {e = 2}
      {b = synced} {t = []} full_first (refl, tt) []

based_checked : checked settings based_packet ≡ inr based_packet
unfolding checked
based_checked = refl

based_packet-Wedges : Wedges new_state based_packet
based_packet-Wedges = record { idle = refl; alone = refl; begins = refl; full = refl; based = refl }

apply_all-Wedges_example :
    All IsRefused
      (apply_all settings codec (based_packet ∷ full_packet ∷ delta_packet ∷ []) new_state []).0
    × ((apply_all settings codec (based_packet ∷ full_packet ∷ delta_packet ∷ []) new_state []).1
        ≡ record new_state { pending_epoch = 2 })
    × ((apply_all settings codec (based_packet ∷ full_packet ∷ delta_packet ∷ []) new_state []).2
        ≡ [])
apply_all-Wedges_example =
    apply_all-Wedges settings codec based_packet based_packet (full_packet ∷ delta_packet ∷ [])
      new_state [] based_checked based_packet-Wedges

begun :
    Reach settings new_site
      (record { applier = (admit settings full_packet new_state).1; running = full_packet ∷ [] })
unfolding admit
begun =
    next here
      (begin full_packet full_packet new_state (admit settings full_packet new_state).1 [] refl)

Reach-IsSafe_example :
    IsSafe
      (record { applier = (admit settings full_packet new_state).1; running = full_packet ∷ [] })
Reach-IsSafe_example = Reach-IsSafe settings begun
