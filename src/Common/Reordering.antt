-- ===== src/Common/Reordering.antt =====
-- Lists with the same entries in another order, as a sort or a container without an order gives them.
use mathlib.Core.List.{List, [], ◌∷◌}
use roost_skill.Common.Lists.{All}

pub data Reordered {A : Type 0} : List A → List A → Type 0 where
  none_left : Reordered [] []
  keep : (a : A) {xs ys : List A} → Reordered xs ys → Reordered (a ∷ xs) (a ∷ ys)
  exchange : (a b : A) (xs : List A) → Reordered (a ∷ b ∷ xs) (b ∷ a ∷ xs)
  in_turn : {xs ys zs : List A} → Reordered xs ys → Reordered ys zs → Reordered xs zs

pub All-Reordered {κ} :
    {A : Type 0} (P : A → Type κ) {xs ys : List A} → Reordered xs ys → All P xs → All P ys
All-Reordered P none_left h = h
All-Reordered P (keep a r) h = (h.0, All-Reordered P r h.1)
All-Reordered P (exchange a b xs) h = (h.1.0, (h.0, h.1.1))
All-Reordered P (in_turn r s) h = All-Reordered P s (All-Reordered P r h)

pub Reordered-refl : {A : Type 0} (xs : List A) → Reordered xs xs
Reordered-refl [] = none_left
Reordered-refl (x ∷ xs) = keep x (Reordered-refl xs)
