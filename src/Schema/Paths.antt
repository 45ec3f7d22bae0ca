-- ===== src/Schema/Paths.antt =====
-- skillsync/schema.go: what the search for a migration path finds.
use roost_skill.Common.{
  ℕ, zero, suc, true, if◌then◌else◌, ◌==◌, ltb, List, [], ◌∷◌, ◌++◌, Option, none, some, ◌≡◌, refl,
  sym, subst, if_cases, ==_iff, All, All-implies, All-sort_by, All-append_last,
}
use roost_skill.Common.Maps.{Map, lookup, keys}
use roost_skill.Common.Results.{Result, Returns}
use roost_skill.Schema.{
  SchemaError, Migration, Registry, edges_from, Node, Search, is_visited, Looked, found, open_yet,
  look, neighbours, after_look, search_path, is_some,
}

abbrev pub HasEdge : Registry → ℕ → ℕ → Type 0
HasEdge r from to = is_some (lookup to (edges_from from r)) ≡ true

-- The steps lead from one version to another by registered migrations.
abbrev pub Leads : Registry → ℕ → List ℕ → ℕ → Type 0
Leads r from [] to = from ≡ to
Leads r from (next ∷ path) to = HasEdge r from next × Leads r next path to

abbrev pub IsPath : Registry → ℕ → List ℕ → ℕ → Type 0
IsPath r from [] to = ⊥
IsPath r from (first ∷ path) to = (first ≡ from) × Leads r first path to

Leads-append :
    (r : Registry) (from : ℕ) (path : List ℕ) (v w : ℕ)
    → Leads r from path v
    → HasEdge r v w
    → Leads r from (path ++ w ∷ []) w
Leads-append r from [] v w h e = (subst (λ x. HasEdge r x w) (sym h) e, refl)
Leads-append r from (x ∷ path) v w h e = (h.0, Leads-append r x path v w h.1 e)

IsPath-append :
    (r : Registry) (from : ℕ) (path : List ℕ) (v w : ℕ)
    → IsPath r from path v
    → HasEdge r v w
    → IsPath r from (path ++ w ∷ []) w
IsPath-append r from [] v w h e = absurd h
IsPath-append r from (x ∷ path) v w h e = (h.0, Leads-append r x path v w h.1 e)

keys-known : (m : Map Migration) → All (λ k. is_some (lookup k m) ≡ true) (keys m)
unfolding lookup
keys-known [] = tt
keys-known ((j, v) ∷ m) = (
  rw ((==_iff j j).1 refl) refl,
  All-implies (λ k. is_some (lookup k m) ≡ true)
      (λ k. is_some (if j == k then some v else lookup k m) ≡ true) (keys m)
      (λ k h.
        if_cases (λ (x : Option Migration). is_some x ≡ true) (j == k) {x = some v} {y = lookup k m}
          (λ _. refl) (λ _. h))
      (keys-known m),
)

neighbours-HasEdge : (v : ℕ) (r : Registry) → All (HasEdge r v) (neighbours v r)
unfolding neighbours
neighbours-HasEdge v r =
    All-sort_by ltb (HasEdge r v) (keys (edges_from v r)) (keys-known (edges_from v r))

module _ (r : Registry) (from to : ℕ) where
  abbrev pub NodeIsPath : Node → Type 0
  NodeIsPath n = IsPath r from n.path n.version

  abbrev LooksRight : Looked → Type 0
  LooksRight (found path) = IsPath r from path to
  LooksRight (open_yet s) = All NodeIsPath s.queue

  look-LooksRight :
      (current : Node) (next : List ℕ) (s : Search)
      → NodeIsPath current
      → All (HasEdge r current.version) next
      → All NodeIsPath s.queue
      → LooksRight (look to current next s)
  unfolding look
  look-LooksRight current [] s c e q = q
  look-LooksRight current (v ∷ next) s c e q =
      let path = IsPath-append r from current.path current.version v c e.0 in
      if_cases LooksRight (is_visited s.visited v) (λ _. look-LooksRight current next s c e.1 q)
        λ _.
          if_cases LooksRight (v == to)
            (λ t. subst (IsPath r from (current.path ++ v ∷ [])) ((==_iff v to).0 t) path)
            λ _. look-LooksRight current next _ c e.1 (All-append_last NodeIsPath s.queue _ q path)

  abbrev pub FindsPath : Option (Result SchemaError (List ℕ)) → Type 0
  FindsPath none = Unit
  FindsPath (some x) = Returns (λ path. IsPath r from path to) x

  pub search_path-FindsPath :
      (fuel : ℕ) (queue : List Node) (visited : List ℕ)
      → All NodeIsPath queue
      → FindsPath (search_path fuel r to queue visited)
  unfolding search_path after_look
  search_path-FindsPath zero queue visited q = tt
  search_path-FindsPath (suc fuel) [] visited q = tt
  search_path-FindsPath (suc fuel) (current ∷ queue) visited q =
      go
        (look to current (neighbours current.version r)
          (record { queue = queue; visited = visited }))
        (look-LooksRight current (neighbours current.version r)
          (record { queue = queue; visited = visited }) q.0 (neighbours-HasEdge current.version r)
          q.1)
        (λ s h. search_path-FindsPath fuel s.queue s.visited h)
    where
      go :
          (l : Looked)
          → LooksRight l
          → ((s : Search)
              → All NodeIsPath s.queue
              → FindsPath (search_path fuel r to s.queue s.visited))
          → FindsPath (after_look (λ s. search_path fuel r to s.queue s.visited) l)
      go (found path) h rest = h
      go (open_yet s) h rest = rest s h
