-- ===== src/Compose/Examples.antt =====
-- skillcompose at concrete inputs: a contract that is accepted, and what is matched in it.
use roost_skill.Common.{ℕ, ◌↔◌, true, false, List, [], ◌∷◌, Option, some, String, ◌≡◌, refl}
use roost_skill.Common.Int.{pos}
use roost_skill.Compose.Contract.{SourceGrant, SkillCompositionContract}
use roost_skill.Compose.{
  validate_contract, header_valid, budgets_valid, sources_valid, grants_valid, obligations_valid,
  texts_valid, digest_of,
}
use roost_skill.Compose.Accepted.{IsAccepted}
use roost_skill.Compose.Complete.{validate_contract-IsAccepted}
use roost_skill.Compose.Graph.{
  CausalGraph, reaches_sink, graph_from_profile, Answers, reaches_sink-Answers,
}
use roost_skill.Compose.Reach.{Reaches, IsSink, reaches_sink-Reaches}

abbrev grants : List SourceGrant
grants =
    record {
      source_id = "fireball";
      feature = "effect.damage";
      allowed_transforms = "identity" ∷ [];
    }
    ∷ []

abbrev seal : SkillCompositionContract → Option String
seal c = some "d1"

abbrev contract : SkillCompositionContract
contract = record {
  version = "skillcompose/v2";
  sources = record { skill_id = "fireball"; gameplay_digest = "f0" } ∷ [];
  authority_revision = "r1";
  authority_digest = "a0";
  policy = "standard";
  grants = grants;
  obligations = record { source_id = "fireball"; key = "cost" } ∷ [];
  packages = [];
  constraints = "melee" ∷ [];
  budgets = record {
    targets = pos 3;
    processes = pos 1;
    mutations = pos 8;
    events_per_root = pos 16;
    random_sites = pos 0;
    lifetime_ticks = pos 600;
  };
  digest = "d1";
}

accepted : validate_contract seal contract ≡ true
unfolding validate_contract header_valid budgets_valid sources_valid grants_valid obligations_valid
    texts_valid digest_of
accepted = refl

validate_contract-IsAccepted_example :
    (validate_contract seal contract ≡ true) ↔ IsAccepted seal contract
validate_contract-IsAccepted_example = validate_contract-IsAccepted seal contract

example_conditions : IsAccepted seal contract
example_conditions = validate_contract-IsAccepted_example.0 accepted

-- Two nodes in a circle, and a third that is a sink.
abbrev circle : CausalGraph
circle = record {
  edges = (0, 1 ∷ []) ∷ (1, 0 ∷ 2 ∷ []) ∷ [];
  roots = 0 ∷ [];
  sinks = (2, true) ∷ [];
}

reaches_sink-Answers_example : Answers (reaches_sink circle)
reaches_sink-Answers_example = reaches_sink-Answers circle

reaches_sink-Reaches_example :
    (reaches_sink circle ≡ some true) ↔ ((k : ℕ) × Reaches circle k × IsSink circle k)
reaches_sink-Reaches_example = reaches_sink-Reaches circle

three_operations : reaches_sink (graph_from_profile ("move" ∷ "wait" ∷ "heal" ∷ [])) ≡ some true
unfolding reaches_sink graph_from_profile
three_operations = refl

no_sink : reaches_sink (graph_from_profile ("move" ∷ "wait" ∷ [])) ≡ some false
unfolding reaches_sink graph_from_profile
no_sink = refl
