-- ===== src/Memory/Writes.antt =====
-- What a copy to user memory writes, byte by byte (kernel/src/memory.rs).
use bulla.Prelude.{
  ℕ, zero, suc, refl, ap, none, some, List, arith, ltb, ltb→lt, ==_iff, Bool-cases, Result, ok, err,
  Result-cases, inl, inr, ◌+◌, ◌<◌, ◌≡◌, ◌∙◌, ◌≢◌, ◌↔◌, ◌⊎◌, [], ◌∷◌, ◌==◌,
}
use bulla.Prelude.Lists.{length}
use bulla.Prelude.Arrays.{get_elem?, get_elem?-none}
use bulla.Prelude.Map.{get, insert, get-insert, nat_key}
use bulla.Memory.{AddressSpace, MapError, PagePermissions, page_write, translate}
use bulla.Memory.User.{UserMemory, user_addresses, validate_user_range, write_all, copy_to_user}
use bulla.Memory.Copies.{
  Reachable, user_addresses-Reachable, user_addresses_total, user_addresses-First,
  user_addresses-length,
}

-- The byte at this offset of the range is translated to the physical address.
pub Lands : AddressSpace → ℕ → ℕ → ℕ → Type 0
Lands s start i p =
    (permissions : PagePermissions) × (translate s (start + i) ≡ ok (p, permissions))

-- The last byte of the input that lands at the address is there.
pub record WrittenAt (s : AddressSpace) (start : ℕ) (input : List ℕ) (after : UserMemory) (p : ℕ)
    : Type 0 where
  pub offset : ℕ
  pub inside : offset < length input
  pub lands : Lands s start offset p
  pub byte : get p after ≡ get_elem? input offset
  pub last : (j : ℕ) → offset < j → j < length input → ¬ Lands s start j p

-- No byte lands there, and memory is as it was.
pub record Untouched (s : AddressSpace) (start : ℕ) (input : List ℕ) (before after : UserMemory)
    (p : ℕ) : Type 0 where
  pub outside : (i : ℕ) → i < length input → ¬ Lands s start i p
  pub kept : get p after ≡ get p before

-- What a copy did to memory, by how it ended.
unfoldable pub Copied :
    AddressSpace → ℕ → List ℕ → UserMemory → UserMemory × Result MapError (Unit {0}) → Type 0
Copied s start input before (after, ok _) =
    (p : ℕ) → WrittenAt s start input after p ⊎ Untouched s start input before after p
Copied s start input before (after, err _) = after ≡ before

-- The same of a list of addresses.
WroteAt : List ℕ → List ℕ → UserMemory → ℕ → Type 0
WroteAt ps vs after p =
    (i : ℕ) × (get_elem? ps i ≡ some p)
    × (get p after ≡ get_elem? vs i)
    × ((j : ℕ) → i < j → get_elem? ps j ≢ some p)

get_elem?-inside : (ps : List ℕ) (i p : ℕ) {n : ℕ} → get_elem? ps i ≡ some p → length ps ≡ n → i < n
get_elem?-inside ps i p {n} t len = elim (Bool-cases (ltb i n)) [
  | inl low ↦ ltb→lt i n low
  | inr high ↦
      let nil : get_elem? ps i ≡ none = get_elem?-none ps i (ground (arith, high, len)) in
      absurd (ground (arith, nil, t))
]

behind :
    (q p i : ℕ) (ps : List ℕ)
    → ((j : ℕ) → i < j → get_elem? ps j ≢ some p)
    → (j : ℕ) → suc i < j
    → get_elem? (q ∷ ps) j ≢ some p
unfolding get_elem?
behind q p i ps last zero h = absurd (omega (arith, h))
behind q p i ps last (suc j) h = last j (omega (arith, h))

behind_first :
    (q p : ℕ) (ps : List ℕ)
    → ((j : ℕ) → get_elem? ps j ≢ some p)
    → (j : ℕ) → 0 < j
    → get_elem? (q ∷ ps) j ≢ some p
unfolding get_elem?
behind_first q p ps nowhere zero h = absurd (omega (arith, h))
behind_first q p ps nowhere (suc j) h = nowhere j

none_of :
    (q p : ℕ) (ps : List ℕ)
    → q ≢ p
    → ((j : ℕ) → get_elem? ps j ≢ some p)
    → (j : ℕ) → get_elem? (q ∷ ps) j ≢ some p
unfolding get_elem?
none_of q p ps other nowhere zero = λ t. other (ground (arith, t))
none_of q p ps other nowhere (suc j) = nowhere j

write_all_cases :
    (ps vs : List ℕ) (memory : UserMemory) (p : ℕ)
    → length ps ≡ length vs
    → WroteAt ps vs (write_all memory ps vs) p
      ⊎ (((i : ℕ) → get_elem? ps i ≢ some p) × (get p (write_all memory ps vs) ≡ get p memory))
unfolding write_all WroteAt get_elem?
write_all_cases [] vs memory p e = inr ((λ i t. absurd (ground (arith, t))), refl)
write_all_cases (q ∷ ps) [] memory p e = absurd (omega (arith, e))
write_all_cases (q ∷ ps) (v ∷ vs) memory p e =
    let stored = get-insert q p v memory in
    elim (write_all_cases ps vs (insert q v memory) p (omega (arith, e))) [
      | inl (i, there, holds, last) ↦ inl (suc i, there, holds, behind q p i ps last)
      | inr (nowhere, kept) ↦ elim (Bool-cases (q == p)) [
        | inl same ↦ inl (
          0,
          ap some ((==_iff q p).0 same),
          kept ∙ stored ∙ rw same refl,
          behind_first q p ps nowhere,
        )
        | inr other ↦ inr (
          none_of q p ps (λ t. absurd (ground (arith, other, (==_iff q p).1 t))) nowhere,
          kept ∙ stored ∙ rw other refl,
        )
      ]
    ]

user_addresses_at :
    (s : AddressSpace) (start : ℕ) (right : PagePermissions) (n o : ℕ) (ps : List ℕ)
    → user_addresses s start right n o ≡ ok ps
    → (i : ℕ) → i < n
    → (q : ℕ) × (get_elem? ps i ≡ some q) × Lands s start (o + i) q
unfolding get_elem? Lands
user_addresses_at s start right zero o ps h i low = absurd (omega arith)
user_addresses_at s start right (suc n) o ps h zero low =
    let f = user_addresses-First s start right n o ps h in
    (
      f.first.physical,
      ap (λ t. get_elem? t 0) f.joined,
      (f.first.permissions, ap (λ t. translate s (start + t)) (omega arith) ∙ f.first.translated),
    )
user_addresses_at s start right (suc n) o ps h (suc i) low =
    let f = user_addresses-First s start right n o ps h in
    let (q, found, (permissions, t)) =
      user_addresses_at s start right n (o + 1) f.rest f.others i (omega arith) in
    (
      q,
      ap (λ t. get_elem? t (suc i)) f.joined ∙ found,
      (permissions, ap (λ t. translate s (start + t)) (omega arith) ∙ t),
    )

-- The addresses of a validated range are what its bytes land at.
Lands-get_elem? :
    (s : AddressSpace) (start : ℕ) (right : PagePermissions) (n : ℕ) (ps : List ℕ)
    → user_addresses s start right n 0 ≡ ok ps
    → (i p : ℕ) → i < n
    → (get_elem? ps i ≡ some p) ↔ Lands s start i p
unfolding Lands
Lands-get_elem? s start right n ps h i p low =
    let (q, found, (permissions, t)) = user_addresses_at s start right n 0 ps h i low in
    let here : translate s (start + i) ≡ ok (q, permissions) =
      ap (λ k. translate s (start + k)) (omega arith) ∙ t in
    (
      λ e.
          let same : q ≡ p = ground (arith, e, found) in
          (permissions, here ∙ ap (λ k. ok (k, permissions)) same),
      λ (other, e). let same : q ≡ p = ground (arith, e, here) in found ∙ ap some same,
    )

written_or_Untouched :
    (s : AddressSpace) (memory : UserMemory) (start : ℕ) (input ps : List ℕ) (p : ℕ)
    → user_addresses s start page_write (length input) 0 ≡ ok ps
    → WrittenAt s start input (write_all memory ps input) p
      ⊎ Untouched s start input memory (write_all memory ps input) p
unfolding WroteAt
written_or_Untouched s memory start input ps p h =
    let len = user_addresses-length s start page_write (length input) 0 ps h in
    let lands = Lands-get_elem? s start page_write (length input) ps h in
    elim (write_all_cases ps input memory p len) [
      | inl (i, there, holds, last) ↦
          let low : i < length input = get_elem?-inside ps i p there len in
          inl (record {
            offset = i;
            inside = low;
            lands = (lands i p low).0 there;
            byte = holds;
            last = λ j later below l. last j later ((lands j p below).1 l);
          })
      | inr (nowhere, kept) ↦
          inr (record { outside = λ i below l. nowhere i ((lands i p below).1 l); kept = kept })
    ]

copy_to_user-Copied :
    (s : AddressSpace) (memory : UserMemory) (start : ℕ) (input : List ℕ)
    → Copied s start input memory (copy_to_user s memory start input)
unfolding Copied copy_to_user validate_user_range
copy_to_user-Copied s memory start input =
    elim (Result-cases (user_addresses s start page_write (length input) 0)) [
      | inl (ps, e) ↦
          rw (copy_to_user, validate_user_range, e)
            (λ p. written_or_Untouched s memory start input ps p e)
      | inr (x, e) ↦ rw (copy_to_user, validate_user_range, e) refl
    ]

-- A copy to user memory succeeds exactly when every byte of the range can be written by user code.
-- Then each physical address that a byte of the range is translated to holds the last such byte of
-- the input, and every other one is as it was; a copy that fails leaves memory as it was.
pub copy_to_user_iff :
    (s : AddressSpace) (memory : UserMemory) (start : ℕ) (input : List ℕ)
    → (((copy_to_user s memory start input).1 ≡ ok tt)
        ↔ ((i : ℕ) → i < length input → Reachable s start page_write i))
      × Copied s start input memory (copy_to_user s memory start input)
unfolding copy_to_user validate_user_range
copy_to_user_iff s memory start input = (
  (
    λ h i below. elim (Result-cases (user_addresses s start page_write (length input) 0)) [
      | inl (ps, e) ↦
          user_addresses-Reachable s start page_write (length input) 0 i ps e (omega arith)
            (omega arith)
      | inr (x, e) ↦ absurd (ground arith)
    ],
    λ all.
        let (ps, e) =
          user_addresses_total s start page_write (length input) 0
            (λ i low high. all i (omega arith)) in
        ground arith,
  ),
  copy_to_user-Copied s memory start input,
)
