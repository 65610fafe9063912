-- ===== src/Storage/Tables.antt =====
-- kernel/src/storage.rs: fixed-capacity maps and bitmaps.
use bulla.Prelude.{
  ℕ, zero, suc, bit_and, bit_or, Bool, true, false, not, Option, none, some, List, leb, Result, ok,
  err, ok_or, u64_mod, ◌+◌, ◌-◌, ◌*◌, ◌/◌, ◌%◌, ◌^◌, [], ◌∷◌, ◌==◌, if◌then◌else◌,
}
use bulla.Prelude.Lists.{length}
use bulla.Prelude.Arrays.{get_elem?, set_elem?, repeat}
use bulla.Prelude.Map.{Key}
use bulla.Storage.{StorageError, Ran, index_then, full, out_of_bounds, duplicate_key, missing_key}

-- The capacity `N` is the length of `entries`.
pub record FixedMap {ℓ κ} (K : Type ℓ) (V : Type κ) : Type (ℓ ⊔ κ) where
  pub entries : List (Option (K × V))
  pub len : ℕ

-- The words, 64 bits each.
pub record Bitmap : Type 0 where
  pub words : List ℕ

abbrev pub new_map {ℓ κ} : {K : Type ℓ} {V : Type κ} → ℕ → FixedMap K V
new_map n = record { entries = repeat n none; len = 0 }

abbrev is_some {ℓ} : {A : Type ℓ} → Option A → Bool
is_some none = false
is_some (some _) = true

module _ {ℓ κ} {K : Type ℓ} {V : Type κ} ⦃o : Key K⦄ where
  abbrev stores_key : K → Option (K × V) → Bool
  stores_key key none = false
  stores_key key (some (stored, _)) = o.eq stored key

  -- `entries.iter().flatten().find_map(…)`
  unfoldable pub find : K → List (Option (K × V)) → Option V
  find key [] = none
  find key (none ∷ entries) = find key entries
  find key (some (stored, value) ∷ entries) =
      let rest = find key entries in if o.eq stored key then some value else rest

  unfoldable pub map_insert : FixedMap K V → K → V → Ran (FixedMap K V) (Unit {0})
  unfolding find
  map_insert m key value =
      if is_some (find key m.entries)
      then some (m, err duplicate_key)
      else if m.len == length m.entries
      then some (m, err full)
      else index_then (set_elem? m.len (some (key, value)) m.entries)
          (λ entries. some (record { entries = entries; len = m.len + 1 }, ok tt))

  unfoldable pub map_get : FixedMap K V → K → Result StorageError V
  unfolding find
  map_get m key = ok_or (find key m.entries) missing_key

  -- `entries.iter().take(n).position(…)`
  unfoldable pub position : K → ℕ → List (Option (K × V)) → Option ℕ
  position key zero entries = none
  position key (suc n) [] = none
  position key (suc n) (e ∷ entries) =
      let rest = position key n entries in
      if stores_key key e then some 0 else elim rest [ none ↦ none | some i ↦ some (suc i) ]

  -- The last entry takes the place of the removed one; `len - 1` is of a length that is not zero.
  unfoldable pub map_remove : FixedMap K V → K → Ran (FixedMap K V) V
  unfolding position
  map_remove m key = elim (position key m.len m.entries) [
    | none ↦ some (m, err missing_key)
    | some index ↦ index_then (get_elem? m.entries index) λ e. elim e [
      | none ↦ some (m, err missing_key)
      | some (_, value) ↦
          let last = m.len - 1 in
          index_then (get_elem? m.entries last) λ moved.
            index_then (set_elem? index moved m.entries) λ once.
              index_then (set_elem? last none once)
                λ entries. some (record { entries = entries; len = last }, ok value)
    ]
  ]

abbrev pub new_bitmap : ℕ → Bitmap
new_bitmap words = record { words = repeat words 0 }

-- `words[word] |= mask` and `words[word] &= !mask`
abbrev pub changed : ℕ → ℕ → Bool → ℕ
changed word mask true = bit_or word mask
changed word mask false = bit_and word (u64_mod - 1 - mask)

unfoldable pub bit_set : Bitmap → ℕ → Bool → Ran Bitmap (Unit {0})
bit_set b bit value =
    let word = bit / 64 in
    if leb (length b.words) word
    then some (b, err out_of_bounds)
    else index_then (get_elem? b.words word) λ w.
      index_then (set_elem? word (changed w (2 ^ (bit % 64)) value) b.words)
        λ words. some (record { words = words }, ok tt)

unfoldable pub bit_get : Bitmap → ℕ → Option (Result StorageError Bool)
bit_get b bit =
    let word = bit / 64 in
    if leb (length b.words) word
    then some (err out_of_bounds)
    else index_then (get_elem? b.words word) λ w. some (ok (not (bit_and w (2 ^ (bit % 64)) == 0)))

-- `(!word).trailing_zeros()`, the place of the lowest clear bit, over at most `n` bits.
unfoldable pub trailing_ones : ℕ → ℕ → ℕ
trailing_ones zero word = 0
trailing_ones (suc n) word =
    let rest = trailing_ones n (word / 2) in if word % 2 == 0 then 0 else rest + 1

unfoldable pub first_clear_from : ℕ → List ℕ → Option ℕ
unfolding trailing_ones
first_clear_from index [] = none
first_clear_from index (word ∷ words) =
    let rest = first_clear_from (index + 1) words in
    if word == u64_mod - 1 then rest else some (index * 64 + trailing_ones 64 word)

abbrev pub first_clear : Bitmap → Option ℕ
first_clear b = first_clear_from 0 b.words
