-- ===== src/Prelude/NatSet.antt =====
-- `BTreeSet` of integers: a list in strictly ascending order.
use Prim.Native.Nat.{ℕ, suc, ◌≤◌, ◌<◌}
use mathlib.Core.Path.{◌≡◌, refl, ap₂}
use mathlib.Core.Logic.{◌↔◌, inl, inr}
use mathlib.Core.Bool.{Bool, true, false, ◌&&◌, ◌||◌}
use mathlib.Core.List.{List, [], ◌∷◌}
use native.Mathlib.Omega.{arith}
use bulla.Prelude.Tests.{ltb, ◌==◌, ==_iff, if◌then◌else◌, Bool-cases}
use bulla.Prelude.Lists.{length}

abbrev pub NatSet : Type 0
NatSet = List ℕ

unfoldable pub member : ℕ → NatSet → Bool
member k [] = false
member k (j ∷ s) = j == k || member k s

-- `insert`; the Boolean that it returns is `not (member k s)`.
unfoldable pub add : ℕ → NatSet → NatSet
add k [] = k ∷ []
add k (j ∷ s) = if j == k then j ∷ s else if ltb k j then k ∷ j ∷ s else j ∷ add k s

-- `remove`; the Boolean that it returns is `member k s`.
unfoldable pub delete : ℕ → NatSet → NatSet
delete k [] = []
delete k (j ∷ s) = if j == k then delete k s else j ∷ delete k s

-- `==` of two sets compares their elements in order.
unfoldable pub same : NatSet → NatSet → Bool
same [] [] = true
same [] (k ∷ t) = false
same (j ∷ s) [] = false
same (j ∷ s) (k ∷ t) = j == k && same s t

-- All elements are above a bound, and in order.
abbrev pub IsAbove : ℕ → NatSet → Type 0
IsAbove b [] = Unit
IsAbove b (k ∷ s) = (b ≤ k) × IsAbove (suc k) s

abbrev pub IsAscending : NatSet → Type 0
IsAscending s = IsAbove 0 s

abbrev pub IsSubset : NatSet → NatSet → Type 0
IsSubset s t = (k : ℕ) → member k s ≡ true → member k t ≡ true

pub member-add : (k j : ℕ) (s : NatSet) → member j (add k s) ≡ (k == j || member j s)
unfolding member add
member-add k j [] = refl
member-add k j (i ∷ s) = ground (arith, member-add k j s)

pub member-delete :
    (k j : ℕ) (s : NatSet) → member j (delete k s) ≡ (if k == j then false else member j s)
unfolding member delete
member-delete k j [] = ground arith
member-delete k j (i ∷ s) = ground (arith, member-delete k j s)

pub same_iff : (s t : NatSet) → (same s t ≡ true) ↔ (s ≡ t)
unfolding same
same_iff [] [] = (λ _. refl, λ _. refl)
same_iff [] (k ∷ t) = (λ h. cc, λ h. cc)
same_iff (j ∷ s) [] = (λ h. cc, λ h. cc)
same_iff (j ∷ s) (k ∷ t) = (λ h. ground (arith, same_iff s t), λ h. ground (arith, same_iff s t))

add-IsAbove : (b k : ℕ) (s : NatSet) → b ≤ k → IsAbove b s → IsAbove b (add k s)
unfolding add
add-IsAbove b k [] h a = (h, tt)
add-IsAbove b k (j ∷ s) h a = ground (arith, add-IsAbove (suc j) k s)

pub add-IsAscending : (k : ℕ) (s : NatSet) → IsAscending s → IsAscending (add k s)
add-IsAscending k s a = add-IsAbove 0 k s (omega arith) a

IsAbove-weaken : (b c : ℕ) (s : NatSet) → c ≤ b → IsAbove b s → IsAbove c s
IsAbove-weaken b c [] h a = tt
IsAbove-weaken b c (k ∷ s) h a = (omega arith, a.1)

delete-IsAbove : (b k : ℕ) (s : NatSet) → IsAbove b s → IsAbove b (delete k s)
unfolding delete
delete-IsAbove b k [] a = tt
delete-IsAbove b k (j ∷ s) a =
    ground (arith, delete-IsAbove (suc j) k s, delete-IsAbove b k s, IsAbove-weaken (suc j) b s)

pub delete-IsAscending : (k : ℕ) (s : NatSet) → IsAscending s → IsAscending (delete k s)
delete-IsAscending k s a = delete-IsAbove 0 k s a

-- What lies below the bound is no element.
not-member_below : (b k : ℕ) (s : NatSet) → IsAbove b s → k < b → member k s ≡ false
unfolding member
not-member_below b k [] a h = refl
not-member_below b k (j ∷ s) a h = ground (arith, not-member_below (suc j) k s)

-- An element of the tail is above the head.
not-head : (j x : ℕ) (s : NatSet) → IsAbove (suc j) s → member x s ≡ true → suc j ≤ x
not-head j x s a h = ground (arith, not-member_below (suc j) x s a)

tail-subset-tail :
    (j k : ℕ) (s t : NatSet) → j ≡ k → IsAbove (suc j) s → IsSubset (j ∷ s) (k ∷ t) → IsSubset s t
unfolding member
tail-subset-tail j k s t e a h x m = ground (arith, h x, not-head j x s a)

subset-tail :
    (j k : ℕ) (s t : NatSet)
    → k < j
    → IsAbove (suc j) s
    → IsSubset (j ∷ s) (k ∷ t)
    → IsSubset (j ∷ s) t
unfolding member
subset-tail j k s t e a h x m = ground (arith, h x, not-head j x s a)

-- A subset is no longer, and a subset of the same length is the whole set.
subset_length :
    (b : ℕ) (s t : NatSet)
    → IsAbove b s
    → IsAbove b t
    → IsSubset s t
    → (length s ≤ length t) × (length s ≡ length t → s ≡ t)
unfolding member
subset_length b [] [] p q h = (omega arith, λ _. refl)
subset_length b [] (k ∷ t) p q h = (omega arith, λ e. absurd (omega arith))
subset_length b (j ∷ s) [] p q h = absurd (ground (arith, h j))
subset_length b (j ∷ s) (k ∷ t) p q h = elim (Bool-cases (j == k)) [
  | inl e ↦
      let eq : j ≡ k = (==_iff j k).0 e in
      let above : IsAbove (suc j) t = rw eq q.1 in
      let (le, whole) = subset_length (suc j) s t p.1 above (tail-subset-tail j k s t eq p.1 h) in
      (omega arith, λ len. ap₂ ◌∷◌ eq (whole (omega arith)))
  | inr n ↦
      let lt : k < j = ground (arith, h j, not-member_below (suc k) j t q.1) in
      let (le, _) =
        subset_length (suc k) (j ∷ s) t (omega arith, p.1) q.1 (subset-tail j k s t lt p.1 h) in
      (omega arith, λ len. absurd (omega arith))
]

pub length-subset-le :
    (s t : NatSet) → IsAscending s → IsAscending t → IsSubset s t → length s ≤ length t
length-subset-le s t p q h = (subset_length 0 s t p q h).0

pub eq_of_subset-length :
    (s t : NatSet) → IsAscending s → IsAscending t → IsSubset s t → length s ≡ length t → s ≡ t
eq_of_subset-length s t p q h = (subset_length 0 s t p q h).1

-- Sets with the same elements are equal.
pub eq_of_subset :
    (s t : NatSet) → IsAscending s → IsAscending t → IsSubset s t → IsSubset t s → s ≡ t
eq_of_subset s t p q h k =
    eq_of_subset-length s t p q h
      (omega (arith, length-subset-le s t p q h, length-subset-le t s q p k))
