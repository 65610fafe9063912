-- ===== src/Prelude/Sums.antt =====
-- Sums over the entries of a map with number keys.
use Prim.Native.Nat.{ℕ, suc, ◌+◌, ◌≤◌}
use mathlib.Core.Path.{◌≡◌}
use mathlib.Core.Option.{none, some}
use mathlib.Core.List.{[], ◌∷◌}
use native.Mathlib.Omega.{arith}
use bulla.Prelude.Map.{Map, get, insert, remove, nat_key}
use bulla.Prelude.Ordered.{KeysAbove, IsOrdered, get_below}

module _ {ℓ} {V : Type ℓ} (w : ℕ → V → ℕ) where
  -- The sum of the weights of all entries.
  unfoldable pub sum_map : Map ℕ V → ℕ
  sum_map [] = 0
  sum_map ((k, v) ∷ m) = w k v + sum_map m

  -- The weight of the entry at a key, if there is one.
  abbrev pub weight_at : ℕ → Map ℕ V → ℕ
  weight_at k m = elim (get k m) [ none ↦ 0 | some v ↦ w k v ]

  insert_sum :
      (b k : ℕ) (v : V) (m : Map ℕ V)
      → KeysAbove b m
      → sum_map (insert k v m) + weight_at k m ≡ sum_map m + w k v
  unfolding sum_map insert get
  insert_sum b k v [] a = ground arith
  insert_sum b k v ((j, u) ∷ m) a =
      ground (arith, insert_sum (suc j) k v m a.1, get_below (suc j) k m a.1)

  pub sum_map-insert :
      (k : ℕ) (v : V) (m : Map ℕ V)
      → IsOrdered m
      → sum_map (insert k v m) + weight_at k m ≡ sum_map m + w k v
  sum_map-insert k v m a = insert_sum 0 k v m a

  remove_sum :
      (b k : ℕ) (m : Map ℕ V) → KeysAbove b m → sum_map (remove k m) + weight_at k m ≡ sum_map m
  unfolding sum_map remove get
  remove_sum b k [] a = ground arith
  remove_sum b k ((j, u) ∷ m) a =
      ground (arith, remove_sum (suc j) k m a.1, get_below (suc j) k m a.1)

  pub sum_map-remove :
      (k : ℕ) (m : Map ℕ V) → IsOrdered m → sum_map (remove k m) + weight_at k m ≡ sum_map m
  sum_map-remove k m a = remove_sum 0 k m a

  pub weight_le : (k : ℕ) (m : Map ℕ V) → weight_at k m ≤ sum_map m
  unfolding sum_map get
  weight_le k [] = ground arith
  weight_le k ((j, u) ∷ m) = ground (arith, weight_le k m)
