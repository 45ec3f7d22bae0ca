-- ===== src/Common/Maps.antt =====
-- Go maps with numeric keys, as association lists.
use Prim.Native.Nat.{ℕ}
use mathlib.Core.Path.{◌≡◌, refl}
use mathlib.Core.Option.{Option, none, some}
use mathlib.Core.List.{List, [], ◌∷◌, map}
use native.Mathlib.Omega.{arith}
use roost_skill.Common.Tests.{◌==◌, if◌then◌else◌}

abbrev pub Map {ℓ} : Type ℓ → Type ℓ
Map V = List (ℕ × V)

module _ {ℓ} {V : Type ℓ} where
  -- `v, ok := m[k]`
  unfoldable pub lookup : ℕ → Map V → Option V
  lookup k [] = none
  lookup k ((j, v) ∷ m) = if j == k then some v else lookup k m

  -- `m[k]`, with the zero value of a missing key.
  unfoldable pub get_or : V → ℕ → Map V → V
  get_or d k [] = d
  get_or d k ((j, v) ∷ m) = if j == k then v else get_or d k m

  -- `m[k] = v`
  unfoldable pub insert : ℕ → V → Map V → Map V
  insert k v [] = (k, v) ∷ []
  insert k v ((j, w) ∷ m) = if j == k then (k, v) ∷ m else (j, w) ∷ insert k v m

  -- `delete(m, k)`
  unfoldable pub erase : ℕ → Map V → Map V
  erase k [] = []
  erase k ((j, w) ∷ m) = if j == k then erase k m else (j, w) ∷ erase k m

  abbrev pub keys : Map V → List ℕ
  keys = map λ e. e.0

  -- No key is listed twice.
  abbrev pub KeysUnique : Map V → Type ℓ
  KeysUnique [] = Unit
  KeysUnique ((k, v) ∷ m) = (lookup k m ≡ none) × KeysUnique m

  pub lookup-insert :
      (j k : ℕ) (v : V) (m : Map V)
      → lookup j (insert k v m) ≡ (if k == j then some v else lookup j m)
  unfolding lookup insert
  lookup-insert j k v [] = refl
  lookup-insert j k v ((i, w) ∷ m) = ground (arith, lookup-insert j k v m)

  pub lookup-erase :
      (j k : ℕ) (m : Map V) → lookup j (erase k m) ≡ (if k == j then none else lookup j m)
  unfolding lookup erase
  lookup-erase j k [] = ground arith
  lookup-erase j k ((i, w) ∷ m) = ground (arith, lookup-erase j k m)

  pub get_or-insert :
      (d : V) (j k : ℕ) (v : V) (m : Map V)
      → get_or d j (insert k v m) ≡ (if k == j then v else get_or d j m)
  unfolding get_or insert
  get_or-insert d j k v [] = refl
  get_or-insert d j k v ((i, w) ∷ m) = ground (arith, get_or-insert d j k v m)

  pub insert-KeysUnique : (k : ℕ) (v : V) (m : Map V) → KeysUnique m → KeysUnique (insert k v m)
  unfolding insert lookup
  insert-KeysUnique k v [] u = (refl, tt)
  insert-KeysUnique k v ((i, w) ∷ m) u =
      ground (arith, insert-KeysUnique k v m u.1, lookup-insert i k v m)

  pub erase-KeysUnique : (k : ℕ) (m : Map V) → KeysUnique m → KeysUnique (erase k m)
  unfolding erase
  erase-KeysUnique k [] u = tt
  erase-KeysUnique k ((i, w) ∷ m) u = ground (arith, erase-KeysUnique k m u.1, lookup-erase i k m)

  pub erase_absent : (k : ℕ) (m : Map V) → lookup k m ≡ none → erase k m ≡ m
  unfolding lookup erase
  erase_absent k [] e = refl
  erase_absent k ((i, w) ∷ m) e = ground (arith, erase_absent k m)

  pub lookup-insert_self : (k : ℕ) (v : V) (m : Map V) → lookup k (insert k v m) ≡ some v
  lookup-insert_self k v m = ground (arith, lookup-insert k k v m)
