-- ===== src/Compose/Reach.antt =====
-- skillcompose/graph.go: what ReachesSink decides.
use roost_skill.Common.{
  ℕ, zero, suc, ◌+◌, Bool, true, false, ◌||◌, ◌++◌, List, [], ◌∷◌, some, ◌==◌, any, length, ◌≡◌,
  ◌↔◌, ◌⊎◌, refl, sym, ap, ◌∙◌, arith, inl, inr, Bool-cases, ==_iff, subst,
}
use roost_skill.Common.Maps.{get_or}
use roost_skill.Compose.Graph.{
  CausalGraph, search, unseen_edges, reaches_sink, reaches_sink-Answers,
}

abbrev pub is_in : ℕ → List ℕ → Bool
is_in k l = any (λ j. j == k) l

-- The nodes that some path of edges leads to from a root.
pub data Reaches (g : CausalGraph) : ℕ → Type 0 where
  root : {k : ℕ} → is_in k g.roots ≡ true → Reaches g k
  step : {j k : ℕ} → Reaches g j → is_in k (get_or [] j g.edges) ≡ true → Reaches g k

abbrev pub IsSink : CausalGraph → ℕ → Type 0
IsSink g k = get_or false k g.sinks ≡ true

is_in-append : (k : ℕ) (xs ys : List ℕ) → is_in k (xs ++ ys) ≡ (is_in k xs || is_in k ys)
is_in-append k [] ys = refl
is_in-append k (x ∷ xs) ys = ground (arith, is_in-append k xs ys)

or_cases : (a b : Bool) → (a || b) ≡ true → (a ≡ true) ⊎ (b ≡ true)
or_cases a b e = ground arith

-- The queue of a search holds reachable nodes only.
abbrev AllReach : CausalGraph → List ℕ → Type 0
AllReach g queue = (k : ℕ) → is_in k queue ≡ true → Reaches g k

head_in : (k : ℕ) (l : List ℕ) → is_in k (k ∷ l) ≡ true
head_in k l = ground arith

tail_in : (k j : ℕ) (l : List ℕ) → is_in k l ≡ true → is_in k (j ∷ l) ≡ true
tail_in k j l e = ground arith

onward_AllReach :
    (g : CausalGraph) (node : ℕ) (queue : List ℕ)
    → AllReach g (node ∷ queue)
    → AllReach g (queue ++ get_or [] node g.edges)
onward_AllReach g node queue r k e =
    elim (or_cases (is_in k queue) (is_in k (get_or [] node g.edges))
      (sym (is_in-append k queue _) ∙ e)) [
        | inl early ↦ r k (tail_in k node queue early)
        | inr late ↦ step (r node (head_in node queue)) late
      ]

-- A search that finds a sink has reached it.
Found : CausalGraph → Type 0
Found g = (k : ℕ) × Reaches g k × IsSink g k

search-true :
    (n : ℕ) (g : CausalGraph) (seen queue : List ℕ)
    → AllReach g queue
    → search n g seen queue ≡ some true
    → Found g
unfolding search Found
search-true zero g seen queue r e = cc
search-true (suc n) g seen [] r e = cc
search-true (suc n) g seen (node ∷ queue) r e = elim (Bool-cases (is_in node seen)) [
  | inl old ↦ search-true n g seen queue (λ k h. r k (tail_in k node queue h)) (rw old at e)
  | inr new ↦ elim (Bool-cases (get_or false node g.sinks)) [
    | inl sink ↦ (node, r node (head_in node queue), sink)
    | inr dry ↦
        search-true n g (node ∷ seen) (queue ++ get_or [] node g.edges)
          (onward_AllReach g node queue r) (rw (new, dry) at e)
  ]
]

-- What a search that has found no sink so far knows.
record Explored (g : CausalGraph) (seen queue : List ℕ) : Type 0 where
  dry : (k : ℕ) → is_in k seen ≡ true → get_or false k g.sinks ≡ false
  closed :
      (j k : ℕ)
      → is_in j seen ≡ true
      → is_in k (get_or [] j g.edges) ≡ true
      → (is_in k seen || is_in k queue) ≡ true
  rooted : (k : ℕ) → is_in k g.roots ≡ true → (is_in k seen || is_in k queue) ≡ true

or_false : (a : Bool) → (a || false) ≡ true → a ≡ true
or_false a e = ground arith

Explored-all :
    (g : CausalGraph) (seen : List ℕ)
    → Explored g seen []
    → (k : ℕ) → Reaches g k
    → is_in k seen ≡ true
Explored-all g seen x k (root e) = or_false (is_in k seen) (x.rooted k e)
Explored-all g seen x k (step {j} r e) =
    or_false (is_in k seen) (x.closed j k (Explored-all g seen x j r) e)

-- A node that is taken from the queue a second time.
skip_lem :
    (k node : ℕ) (seen queue : List ℕ)
    → is_in node seen ≡ true
    → (is_in k seen || is_in k (node ∷ queue)) ≡ true
    → (is_in k seen || is_in k queue) ≡ true
skip_lem k node seen queue old e = elim (Bool-cases (node == k)) [
  | inl hit ↦
      ap (λ b. b || is_in k queue) (subst (λ n. is_in n seen ≡ true) ((==_iff node k).0 hit) old)
  | inr miss ↦ ground (arith, miss)
]

skip-Explored :
    (g : CausalGraph) (node : ℕ) (seen queue : List ℕ)
    → is_in node seen ≡ true
    → Explored g seen (node ∷ queue)
    → Explored g seen queue
skip-Explored g node seen queue old x = record {
  dry = x.dry;
  closed = λ j k h e. skip_lem k node seen queue old (x.closed j k h e);
  rooted = λ k e. skip_lem k node seen queue old (x.rooted k e);
}

-- A node that is taken from the queue for the first time.
move_lem :
    (k node : ℕ) (seen queue targets : List ℕ)
    → (is_in k seen || is_in k (node ∷ queue)) ≡ true
    → (is_in k (node ∷ seen) || is_in k (queue ++ targets)) ≡ true
move_lem k node seen queue targets e = ground (arith, is_in-append k queue targets)

target_lem :
    (k node : ℕ) (seen queue targets : List ℕ)
    → is_in k targets ≡ true
    → (is_in k (node ∷ seen) || is_in k (queue ++ targets)) ≡ true
target_lem k node seen queue targets e = ground (arith, is_in-append k queue targets)

visit-Explored :
    (g : CausalGraph) (node : ℕ) (seen queue : List ℕ)
    → get_or false node g.sinks ≡ false
    → Explored g seen (node ∷ queue)
    → Explored g (node ∷ seen) (queue ++ get_or [] node g.edges)
visit-Explored g node seen queue dry x = record {
  dry = λ k h. elim (or_cases (node == k) (is_in k seen) h) [
    | inl hit ↦ subst (λ n. get_or false n g.sinks ≡ false) ((==_iff node k).0 hit) dry
    | inr past ↦ x.dry k past
  ];
  closed = λ j k h e. elim (or_cases (node == j) (is_in j seen) h) [
    | inl hit ↦
        target_lem k node seen queue (get_or [] node g.edges)
          (subst (λ n. is_in k (get_or [] n g.edges) ≡ true) (sym ((==_iff node j).0 hit)) e)
    | inr past ↦ move_lem k node seen queue (get_or [] node g.edges) (x.closed j k past e)
  ];
  rooted = λ k e. move_lem k node seen queue (get_or [] node g.edges) (x.rooted k e);
}

search-false :
    (n : ℕ) (g : CausalGraph) (seen queue : List ℕ)
    → Explored g seen queue
    → search n g seen queue ≡ some false
    → (k : ℕ) → Reaches g k
    → get_or false k g.sinks ≡ false
unfolding search
search-false zero g seen queue x e k r = cc
search-false (suc n) g seen [] x e k r = x.dry k (Explored-all g seen x k r)
search-false (suc n) g seen (node ∷ queue) x e k r = elim (Bool-cases (is_in node seen)) [
  | inl old ↦ search-false n g seen queue (skip-Explored g node seen queue old x) (rw old at e) k r
  | inr new ↦ elim (Bool-cases (get_or false node g.sinks)) [
    | inl sink ↦ cc (rw (new, sink) at e)
    | inr dry ↦
        search-false n g (node ∷ seen) (queue ++ get_or [] node g.edges)
          (visit-Explored g node seen queue dry x) (rw (new, dry) at e) k r
  ]
]

-- ReachesSink answers yes just where a path of edges leads from a root to a sink.
pub reaches_sink-Reaches :
    (g : CausalGraph) → (reaches_sink g ≡ some true) ↔ ((k : ℕ) × Reaches g k × IsSink g k)
unfolding reaches_sink Found
reaches_sink-Reaches g = (
  (λ e.
      search-true (suc (length g.roots + unseen_edges [] g.edges)) g [] g.roots (λ k h. root h) e),
  (λ f. decided f.0 f.1 f.2 (reaches_sink-Answers g).0 (reaches_sink-Answers g).1),
)
  where
    decided :
        (k : ℕ)
        → Reaches g k
        → IsSink g k
        → (b : Bool) → reaches_sink g ≡ some b
        → reaches_sink g ≡ some true
    decided k r s true e = e
    decided k r s false e = cc (
        search-false (suc (length g.roots + unseen_edges [] g.edges)) g [] g.roots
          (record { dry = λ j h. cc; closed = λ i j h f. cc; rooted = λ j h. h }) e k r)
