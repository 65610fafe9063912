-- ===== src/Prelude/Ordered.antt =====
-- Maps with number keys, in ascending order of the keys as `BTreeMap` keeps them.
use Prim.Native.Nat.{ℕ, suc, ◌≤◌, ◌<◌}
use mathlib.Core.Path.{◌≡◌, refl}
use mathlib.Core.Logic.{◌≢◌, inl, inr}
use mathlib.Core.Bool.{false}
use mathlib.Core.Option.{Option, none, some}
use mathlib.Core.List.{[], ◌∷◌}
use native.Mathlib.Omega.{arith}
use bulla.Prelude.Tests.{◌==◌, ==_iff, Bool-cases}
use bulla.Prelude.Map.{Map, get, insert, remove, nat_key}

module _ {ℓ} {V : Type ℓ} where
  -- Each key is at least the bound and above the key before it.
  abbrev pub KeysAbove : ℕ → Map ℕ V → Type 0
  KeysAbove b [] = Unit
  KeysAbove b ((k, v) ∷ m) = (b ≤ k) × KeysAbove (suc k) m

  abbrev pub IsOrdered : Map ℕ V → Type 0
  IsOrdered m = KeysAbove 0 m

  -- `keys().next_back()`
  unfoldable pub last_key : Map ℕ V → Option ℕ
  last_key [] = none
  last_key ((k, v) ∷ []) = some k
  last_key ((k, v) ∷ e ∷ m) = last_key (e ∷ m)

  insert-KeysAbove :
      (b k : ℕ) (v : V) (m : Map ℕ V) → b ≤ k → KeysAbove b m → KeysAbove b (insert k v m)
  unfolding insert
  insert-KeysAbove b k v [] h a = (h, tt)
  insert-KeysAbove b k v ((j, w) ∷ m) h a = ground (arith, insert-KeysAbove (suc j) k v m)

  pub insert-IsOrdered : (k : ℕ) (v : V) (m : Map ℕ V) → IsOrdered m → IsOrdered (insert k v m)
  insert-IsOrdered k v m a = insert-KeysAbove 0 k v m (omega arith) a

  pub KeysAbove-weaken : (b c : ℕ) (m : Map ℕ V) → c ≤ b → KeysAbove b m → KeysAbove c m
  KeysAbove-weaken b c [] h a = tt
  KeysAbove-weaken b c ((k, v) ∷ m) h a = (omega arith, a.1)

  remove-KeysAbove : (b k : ℕ) (m : Map ℕ V) → KeysAbove b m → KeysAbove b (remove k m)
  unfolding remove
  remove-KeysAbove b k [] a = tt
  remove-KeysAbove b k ((j, w) ∷ m) a =
      ground
        (arith, remove-KeysAbove (suc j) k m, remove-KeysAbove b k m, KeysAbove-weaken (suc j) b m)

  pub remove-IsOrdered : (k : ℕ) (m : Map ℕ V) → IsOrdered m → IsOrdered (remove k m)
  remove-IsOrdered k m a = remove-KeysAbove 0 k m a

  pub get_below : (b k : ℕ) (m : Map ℕ V) → KeysAbove b m → k < b → get k m ≡ none
  unfolding get
  get_below b k [] a h = refl
  get_below b k ((j, w) ∷ m) a h = ground (arith, get_below (suc j) k m)

  last_key_above : (b : ℕ) (m : Map ℕ V) (top : ℕ) → KeysAbove b m → last_key m ≡ some top → b ≤ top
  unfolding last_key
  last_key_above b [] top a h = absurd (ground arith)
  last_key_above b ((k, v) ∷ []) top a h = ground arith
  last_key_above b ((k, v) ∷ (j, w) ∷ m) top a h =
      omega (arith, last_key_above (suc k) ((j, w) ∷ m) top a.1 h)

  -- The last key is the greatest.
  pub le-last_key :
      (b : ℕ) (m : Map ℕ V) (top k : ℕ) (v : V)
      → KeysAbove b m
      → last_key m ≡ some top
      → get k m ≡ some v
      → k ≤ top
  unfolding last_key get
  le-last_key b [] top k v a h g = cc
  le-last_key b ((j, w) ∷ []) top k v a h g = ground arith
  le-last_key b ((j, w) ∷ (i, u) ∷ m) top k v a h g = elim (Bool-cases (j == k)) [
    | inl e ↦
        let eq : j ≡ k = (==_iff j k).0 e in
        omega (arith, last_key_above (suc j) ((i, u) ∷ m) top a.1 h)
    | inr n ↦ le-last_key (suc j) ((i, u) ∷ m) top k v a.1 h (rw n at g)
  ]

  pub last_key-none : (m : Map ℕ V) (k : ℕ) (v : V) → get k m ≡ some v → last_key m ≢ none
  unfolding last_key get
  last_key-none [] k v g h = cc
  last_key-none ((j, w) ∷ []) k v g h = cc
  last_key-none ((j, w) ∷ (i, u) ∷ m) k v g h = last_key-none ((i, u) ∷ m) i u (ground arith) h

  pub last_key_found :
      (m : Map ℕ V) (top : ℕ) → last_key m ≡ some top → (v : V) × (get top m ≡ some v)
  unfolding last_key get
  last_key_found [] top h = absurd (ground arith)
  last_key_found ((k, v) ∷ []) top h = (v, ground arith)
  last_key_found ((k, v) ∷ (j, w) ∷ m) top h = elim (Bool-cases (k == top)) [
    | inl e ↦ (v, rw e)
    | inr n ↦ let (u, g) = last_key_found ((j, w) ∷ m) top h in (u, rw n g)
  ]

  -- `iter().next_back()`
  unfoldable pub last_entry : Map ℕ V → Option (ℕ × V)
  last_entry [] = none
  last_entry (e ∷ []) = some e
  last_entry (e ∷ e' ∷ m) = last_entry (e' ∷ m)

  last_entry_above :
      (b : ℕ) (m : Map ℕ V) (k : ℕ) (v : V) → KeysAbove b m → last_entry m ≡ some (k, v) → b ≤ k
  unfolding last_entry
  last_entry_above b [] k v a h = cc
  last_entry_above b ((j, w) ∷ []) k v a h = ground arith
  last_entry_above b ((j, w) ∷ (i, u) ∷ m) k v a h =
      omega (arith, last_entry_above (suc j) ((i, u) ∷ m) k v a.1 h)

  pub last_entry_found :
      (b : ℕ) (m : Map ℕ V) (k : ℕ) (v : V)
      → KeysAbove b m
      → last_entry m ≡ some (k, v)
      → get k m ≡ some v
  unfolding last_entry get
  last_entry_found b [] k v a h = cc
  last_entry_found b ((j, w) ∷ []) k v a h = ground arith
  last_entry_found b ((j, w) ∷ (i, u) ∷ m) k v a h =
      let lt = last_entry_above (suc j) ((i, u) ∷ m) k v a.1 h in
      let there = last_entry_found (suc j) ((i, u) ∷ m) k v a.1 h in
      let ne : (j == k) ≡ false = ground arith in rw ne there
