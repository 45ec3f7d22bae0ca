-- ===== src/Compose/Graph.antt =====
-- skillcompose/graph.go: the causal graph of a profile. A node is the index of an operation.
use text.Mathlib.Text.{◌==◌ as str_eq}
use roost_skill.Common.{
  ℕ, zero, suc, ◌+◌, ◌≤◌, ◌<◌, Bool, true, false, if◌then◌else◌, ◌||◌, ◌++◌, List, [], ◌∷◌, Option,
  none, some, ◌==◌, any, length, String, ◌≡◌, refl, ap, arith, if_both, length-append, inl, inr,
  Bool-cases,
}
use roost_skill.Common.Maps.{Map, get_or}

pub record CausalGraph : Type 0 where
  pub edges : Map (List ℕ)
  pub roots : List ℕ
  pub sinks : Map Bool

-- The loop of ReachesSink, on fuel: none is to have run out of it.
unfoldable pub search : ℕ → CausalGraph → List ℕ → List ℕ → Option Bool
unfolding get_or
search zero g seen queue = none
search (suc n) g seen [] = some false
search (suc n) g seen (node ∷ queue) =
    let again = search n g seen queue in
    let onward = search n g (node ∷ seen) (queue ++ get_or [] node g.edges) in
    if any (λ k. k == node) seen
    then again
    else if get_or false node g.sinks
    then some true
    else onward

-- The edges that leave nodes not seen yet.
unfoldable pub unseen_edges : List ℕ → Map (List ℕ) → ℕ
unseen_edges seen [] = 0
unseen_edges seen ((k, targets) ∷ m) =
    if any (λ j. j == k) seen then unseen_edges seen m else length targets + unseen_edges seen m

-- Each round takes a node from the queue, and each edge puts one there at most once.
unfoldable pub reaches_sink : CausalGraph → Option Bool
unfolding search unseen_edges
reaches_sink g = search (suc (length g.roots + unseen_edges [] g.edges)) g [] g.roots

unfoldable pub is_sink : String → Bool
is_sink op = str_eq op "damage" || str_eq op "heal" || str_eq op "spawn"

abbrev edges_from : ℕ → List String → Map (List ℕ)
edges_from i [] = []
edges_from i (op ∷ []) = []
edges_from i (op ∷ next ∷ ops) = (i, suc i ∷ []) ∷ edges_from (suc i) (next ∷ ops)

abbrev sinks_from : ℕ → List String → Map Bool
sinks_from i [] = []
sinks_from i (op ∷ ops) =
    if is_sink op then (i, true) ∷ sinks_from (suc i) ops else sinks_from (suc i) ops

abbrev roots_of : List String → List ℕ
roots_of [] = []
roots_of (op ∷ ops) = 0 ∷ []

-- GraphFromProfile of the operations of a profile.
unfoldable pub graph_from_profile : List String → CausalGraph
unfolding is_sink
graph_from_profile ops = record {
  edges = edges_from 0 ops;
  roots = roots_of ops;
  sinks = sinks_from 0 ops;
}

seen_same :
    (k node : ℕ) (seen : List ℕ) → k ≡ node → any (λ j. j == k) seen ≡ any (λ j. j == node) seen
seen_same k node seen e = ap (λ n. any (λ j. j == n) seen) e

-- Seeing a node more never adds to the edges that are left.
unseen_edges_le :
    (node : ℕ) (seen : List ℕ) (m : Map (List ℕ))
    → unseen_edges (node ∷ seen) m ≤ unseen_edges seen m
unfolding unseen_edges
unseen_edges_le node seen [] = omega arith
unseen_edges_le node seen ((k, ts) ∷ m) = ground (arith, unseen_edges_le node seen m)

-- Seeing a new node takes its edges off those that are left.
unseen_edges_drop :
    (node : ℕ) (seen : List ℕ) (m : Map (List ℕ))
    → any (λ j. j == node) seen ≡ false
    → unseen_edges (node ∷ seen) m + length (get_or [] node m) ≤ unseen_edges seen m
unfolding unseen_edges get_or
unseen_edges_drop node seen [] e = omega arith
unseen_edges_drop node seen ((k, ts) ∷ m) e =
    ground
      (arith, unseen_edges_drop node seen m e, unseen_edges_le node seen m, seen_same k node seen)

-- The search answers within its fuel.
abbrev pub Answers : Option Bool → Type 0
Answers o = (b : Bool) × (o ≡ some b)

search-Answers :
    (n : ℕ) (g : CausalGraph) (seen queue : List ℕ)
    → length queue + unseen_edges seen g.edges < n
    → Answers (search n g seen queue)
unfolding search
search-Answers zero g seen queue h = absurd (omega arith)
search-Answers (suc n) g seen [] h = (false, refl)
search-Answers (suc n) g seen (node ∷ queue) h = elim (Bool-cases (any (λ k. k == node) seen)) [
  | inl old ↦ rw old (search-Answers n g seen queue (omega (arith, h)))
  | inr new ↦ rw new (
      if_both Answers (get_or false node g.sinks) {x = some true} (true, refl)
        (search-Answers n g (node ∷ seen) (queue ++ get_or [] node g.edges) (
          omega (
            arith,
            h,
            unseen_edges_drop node seen g.edges new,
            length-append queue (get_or [] node g.edges),
          ))))
]

-- ReachesSink ends on every graph, cyclic or not: it answers within as many rounds as there are roots
-- and edges, and one more.
pub reaches_sink-Answers : (g : CausalGraph) → Answers (reaches_sink g)
unfolding reaches_sink
reaches_sink-Answers g =
    search-Answers (suc (length g.roots + unseen_edges [] g.edges)) g [] g.roots (omega arith)
