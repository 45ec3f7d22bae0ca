-- ===== src/Schema/Termination.antt =====
-- skillsync/schema.go: the rounds of the search for a migration path.
use roost_skill.Common.{
  ℕ, zero, suc, ◌+◌, ◌<◌, ◌≤◌, Bool, true, false, not, ◌||◌, ◌==◌, ltb, List, [], ◌∷◌, ◌++◌, Option,
  none, some, any, length, filter, ◌≡◌, refl, sym, subst, ◌∙◌, arith, if_cases, ==_iff, Bool-cases,
  inl, inr, All, All-implies, All-sort_by, length-append, length-filter-le,
}
use roost_skill.Common.Maps.{Map, get_or, keys}
use roost_skill.Common.Results.{Result}
use roost_skill.Schema.{
  SchemaError, Migration, Registry, edges_from, Node, Search, is_visited, Looked, found, open_yet,
  look, neighbours, after_look, search_path, targets, enough_fuel, migration_path,
}
use roost_skill.Schema.Paths.{FindsPath, search_path-FindsPath}

-- How many of the versions are not visited.
unvisited : List ℕ → List ℕ → ℕ
unvisited ts visited = length (filter (λ t. not (is_visited visited t)) ts)

unvisited_few : (ts visited : List ℕ) → unvisited ts visited ≤ length ts
unfolding unvisited
unvisited_few ts visited = length-filter-le (λ t. not (is_visited visited t)) ts

unvisited-le : (ts visited : List ℕ) (v : ℕ) → unvisited ts (v ∷ visited) ≤ unvisited ts visited
unfolding unvisited
unvisited-le [] visited v = omega arith
unvisited-le (t ∷ ts) visited v = ground (arith, unvisited-le ts visited v)

-- A version that is visited for the first time counts no more.
unvisited-lt :
    (ts visited : List ℕ) (v : ℕ)
    → is_visited ts v ≡ true
    → is_visited visited v ≡ false
    → unvisited ts (v ∷ visited) + 1 ≤ unvisited ts visited
unfolding unvisited
unvisited-lt [] visited v h k = cc
unvisited-lt (t ∷ ts) visited v h k = elim (Bool-cases (t == v)) [
  | inl e ↦
      let q = (==_iff t v).0 e in
      let k' : is_visited visited t ≡ false = subst (λ x. is_visited visited x ≡ false) (sym q) k in
      rw (k', (==_iff v t).1 (sym q)) (omega (arith, unvisited-le ts visited v))
  | inr e ↦ ground (arith, unvisited-lt ts visited v)
]

or_right : (a b : Bool) → b ≡ true → (a || b) ≡ true
or_right a b h = ground arith

any-append : (p : ℕ → Bool) (xs ys : List ℕ) → any p (xs ++ ys) ≡ (any p xs || any p ys)
any-append p [] ys = refl
any-append p (x ∷ xs) ys = ground (arith, any-append p xs ys)

keys-visited : {V : Type 0} (m : Map V) → All (λ k. is_visited (keys m) k ≡ true) (keys m)
keys-visited [] = tt
keys-visited ((j, v) ∷ m) = (
  rw ((==_iff j j).1 refl) refl,
  All-implies (λ k. is_visited (keys m) k ≡ true) (λ k. (j == k || is_visited (keys m) k) ≡ true)
      (keys m) (λ k h. ground arith) (keys-visited m),
)

get_or-targets :
    (from : ℕ) (m : Map (Map Migration))
    → All (λ k. is_visited (targets m) k ≡ true) (keys (get_or [] from m))
unfolding get_or targets
get_or-targets from [] = tt
get_or-targets from ((j, edges) ∷ m) =
    if_cases
      (λ (x : Map Migration). All (λ k. is_visited (keys edges ++ targets m) k ≡ true) (keys x))
      (j == from)
      (λ _.
        All-implies (λ k. is_visited (keys edges) k ≡ true) _ (keys edges)
          (λ k h. any-append (λ v. v == k) (keys edges) (targets m) ∙ rw h refl)
          (keys-visited edges))
      (λ _.
        All-implies (λ k. is_visited (targets m) k ≡ true) _ (keys (get_or [] from m))
          (λ k h. any-append (λ v. v == k) (keys edges) (targets m) ∙ or_right _ _ h)
          (get_or-targets from m))

neighbours-targets :
    (v : ℕ) (r : Registry) → All (λ k. is_visited (targets r.edges) k ≡ true) (neighbours v r)
unfolding neighbours
neighbours-targets v r =
    All-sort_by ltb (λ k. is_visited (targets r.edges) k ≡ true) (keys (edges_from v r))
      (get_or-targets v r.edges)

-- The nodes in the queue and the versions that are not visited.
abbrev measure : List ℕ → List Node → List ℕ → ℕ
measure ts queue visited = length queue + unvisited ts visited

abbrev Bounded : List ℕ → ℕ → Looked → Type 0
Bounded ts n (found path) = Unit
Bounded ts n (open_yet s) = measure ts s.queue s.visited ≤ n

look-Bounded :
    (ts : List ℕ) (to : ℕ) (current : Node) (next : List ℕ) (s : Search) (n : ℕ)
    → All (λ k. is_visited ts k ≡ true) next
    → measure ts s.queue s.visited ≤ n
    → Bounded ts n (look to current next s)
unfolding look
look-Bounded ts to current [] s n h le = le
look-Bounded ts to current (v ∷ next) s n h le =
    if_cases (Bounded ts n) (is_visited s.visited v)
      (λ _. look-Bounded ts to current next s n h.1 le)
      λ fresh.
        if_cases (Bounded ts n) (v == to) (λ _. tt)
          λ _. look-Bounded ts to current next _ n h.1 (
            omega (
              arith,
              unvisited-lt ts s.visited v h.0 fresh,
              length-append s.queue (record { version = v; path = current.path ++ v ∷ [] } ∷ []),
            ))

abbrev pub Ends : Option (Result SchemaError (List ℕ)) → Type 0
Ends none = ⊥
Ends (some x) = Unit

search_path-Ends :
    (fuel : ℕ) (r : Registry) (to : ℕ) (queue : List Node) (visited : List ℕ)
    → measure (targets r.edges) queue visited < fuel
    → Ends (search_path fuel r to queue visited)
unfolding search_path after_look
search_path-Ends zero r to queue visited h = elim h [ ]
search_path-Ends (suc fuel) r to [] visited h = tt
search_path-Ends (suc fuel) r to (current ∷ queue) visited h =
    go
      (look to current (neighbours current.version r) (record { queue = queue; visited = visited }))
      (look-Bounded (targets r.edges) to current (neighbours current.version r)
        (record { queue = queue; visited = visited }) (measure (targets r.edges) queue visited)
        (neighbours-targets current.version r) (omega arith))
      (λ s le. search_path-Ends fuel r to s.queue s.visited (omega arith))
  where
    go :
        (l : Looked)
        → Bounded (targets r.edges) (measure (targets r.edges) queue visited) l
        → ((s : Search)
            → measure (targets r.edges) s.queue s.visited ≤ measure (targets r.edges) queue visited
            → Ends (search_path fuel r to s.queue s.visited))
        → Ends (after_look (λ s. search_path fuel r to s.queue s.visited) l)
    go (found path) le rest = tt
    go (open_yet s) le rest = rest s le

-- The search for a migration path always ends: with an error, or with a path that starts at the
-- source version, ends at the target version and goes by registered migrations only.
pub migration_path-IsPath :
    (from to : ℕ) (r : Registry)
    → Ends (migration_path from to r) × FindsPath r from to (migration_path from to r)
unfolding migration_path
migration_path-IsPath from to r =
    if_cases P (from == 0 || to == 0) (λ _. (tt, tt))
      λ _.
        if_cases P (from == to) (λ e. (tt, (refl, (==_iff from to).0 e)))
          λ _. (
            search_path-Ends (enough_fuel r) r to start (from ∷ []) (omega (arith, few)),
            search_path-FindsPath r from to (enough_fuel r) start (from ∷ []) ((refl, refl), tt),
          )
  where
    few : unvisited (targets r.edges) (from ∷ []) ≤ length (targets r.edges)
    few = unvisited_few (targets r.edges) (from ∷ [])

    start : List Node
    start = record { version = from; path = from ∷ [] } ∷ []

    P : Option (Result SchemaError (List ℕ)) → Type 0
    P x = Ends x × FindsPath r from to x
