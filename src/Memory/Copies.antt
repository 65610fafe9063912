-- ===== src/Memory/Copies.antt =====
-- Copies to and from user memory: which addresses they reach, and a round trip
-- (kernel/src/memory.rs).
use bulla.Prelude.{
  ℕ, zero, suc, bit_or, refl, ap, true, List, arith, ==_iff, Bool-cases, ok, Result-cases, u64_mod,
  inl, inr, ◌+◌, ◌-◌, ◌^◌, ◌≤◌, ◌<◌, ◌≡◌, ◌∙◌, ◌≢◌, ◌↔◌, ◌⊎◌, [], ◌∷◌, ◌==◌,
}
use bulla.Prelude.Lists.{length}
use bulla.Prelude.Map.{get, insert, get-insert, nat_key}
use bulla.Memory.{
  AddressSpace, PagePermissions, permits, page_read, page_write, page_user, translate,
  is_canonical_x86_64,
}
use bulla.Memory.User.{
  UserMemory, user_addresses, validate_user_range, read_all, copy_from_user, write_all,
  copy_to_user,
}

-- An address below 2⁶⁴ is canonical exactly when it lies in the low or the high 2⁴⁷ addresses.
pub is_canonical_iff :
    (address : ℕ)
    → address < u64_mod
    → (is_canonical_x86_64 address ≡ true) ↔ ((address < 2 ^ 47) ⊎ (u64_mod - 2 ^ 47 ≤ address))
unfolding is_canonical_x86_64
is_canonical_iff address h = (λ c. ground arith, λ c. ground arith)

-- The byte at this address can be reached by user code with the right given.
pub record Reachable (s : AddressSpace) (start : ℕ) (right : PagePermissions) (i : ℕ) : Type 0 where
  pub physical : ℕ
  pub permissions : PagePermissions
  pub no_overflow : start + i < u64_mod
  pub translated : translate s (start + i) ≡ ok (physical, permissions)
  pub granted : permits permissions (bit_or page_user right) ≡ true

-- The first address of a range that passes, and the addresses behind it.
pub record First (s : AddressSpace) (start : ℕ) (right : PagePermissions) (n o : ℕ) (ps : List ℕ)
    : Type 0 where
  pub first : Reachable s start right o
  pub rest : List ℕ
  pub others : user_addresses s start right n (o + 1) ≡ ok rest
  pub joined : ps ≡ first.physical ∷ rest

pub user_addresses-First :
    (s : AddressSpace) (start : ℕ) (right : PagePermissions) (n o : ℕ) (ps : List ℕ)
    → user_addresses s start right (suc n) o ≡ ok ps
    → First s start right n o ps
unfolding user_addresses
user_addresses-First s start right n o ps h = elim (Result-cases (translate s (start + o))) [
  | inl (r, e) ↦ elim (Result-cases (user_addresses s start right n (o + 1))) [
    | inl (rest, e') ↦ record {
      first = record {
        physical = r.0;
        permissions = r.1;
        no_overflow = ground arith;
        translated = ground arith;
        granted = ground arith;
      };
      rest = rest;
      others = e';
      joined = ground arith;
    }
    | inr (x, e') ↦ absurd (ground arith)
  ]
  | inr (x, e) ↦ absurd (ground arith)
]

pub user_addresses-Reachable :
    (s : AddressSpace) (start : ℕ) (right : PagePermissions) (n o i : ℕ) (ps : List ℕ)
    → user_addresses s start right n o ≡ ok ps
    → o ≤ i
    → i < o + n
    → Reachable s start right i
user_addresses-Reachable s start right zero o i ps h low high = absurd (omega arith)
user_addresses-Reachable s start right (suc n) o i ps h low high =
    let f = user_addresses-First s start right n o ps h in
    elim (Bool-cases (o == i)) [
      | inl same ↦ rw ((==_iff o i).0 same) at f.first
      | inr other ↦
          user_addresses-Reachable s start right n (o + 1) i f.rest f.others (ground arith)
            (omega arith)
    ]

pub user_addresses_total :
    (s : AddressSpace) (start : ℕ) (right : PagePermissions) (n o : ℕ)
    → ((i : ℕ) → o ≤ i → i < o + n → Reachable s start right i)
    → (ps : List ℕ) × (user_addresses s start right n o ≡ ok ps)
unfolding user_addresses
user_addresses_total s start right zero o h = ([], refl)
user_addresses_total s start right (suc n) o h =
    let here = h o (omega arith) (omega arith) in
    let (ps, e) =
      user_addresses_total s start right n (o + 1)
        (λ i low high. h i (omega arith) (omega arith)) in
    (here.physical ∷ ps, ground (arith, here.no_overflow, here.translated, here.granted))

pub user_addresses-length :
    (s : AddressSpace) (start : ℕ) (right : PagePermissions) (n o : ℕ) (ps : List ℕ)
    → user_addresses s start right n o ≡ ok ps
    → length ps ≡ n
unfolding user_addresses
user_addresses-length s start right zero o ps h = ground arith
user_addresses-length s start right (suc n) o ps h =
    let f = user_addresses-First s start right n o ps h in
    ap length f.joined ∙ ap suc (user_addresses-length s start right n (o + 1) f.rest f.others)

-- The addresses do not depend on the right asked for.
addresses_same :
    (s : AddressSpace) (start : ℕ) (p q : PagePermissions) (n o : ℕ) (xs ys : List ℕ)
    → user_addresses s start p n o ≡ ok xs
    → user_addresses s start q n o ≡ ok ys
    → xs ≡ ys
unfolding user_addresses
addresses_same s start p q zero o xs ys h k = ground arith
addresses_same s start p q (suc n) o xs ys h k =
    let f = user_addresses-First s start p n o xs h in
    let g = user_addresses-First s start q n o ys k in
    ground (
      arith,
      f.joined,
      g.joined,
      f.first.translated,
      g.first.translated,
      addresses_same s start p q n (o + 1) f.rest g.rest f.others g.others,
    )

-- No two of the addresses are the same.
abbrev pub AllNe : ℕ → List ℕ → Type 0
AllNe p [] = Unit
AllNe p (q ∷ qs) = (p ≢ q) × AllNe p qs

abbrev pub Distinct : List ℕ → Type 0
Distinct [] = Unit
Distinct (p ∷ ps) = AllNe p ps × Distinct ps

get-write_all_ne :
    (memory : UserMemory) (ps vs : List ℕ) (p : ℕ)
    → AllNe p ps
    → get p (write_all memory ps vs) ≡ get p memory
unfolding write_all
get-write_all_ne memory [] vs p h = refl
get-write_all_ne memory (q ∷ qs) [] p h = refl
get-write_all_ne memory (q ∷ qs) (v ∷ vs) p h =
    ground (arith, get-write_all_ne (insert q v memory) qs vs p h.1, get-insert q p v memory)

read_all-write_all :
    (memory : UserMemory) (ps vs : List ℕ)
    → Distinct ps
    → length ps ≡ length vs
    → read_all (write_all memory ps vs) ps ≡ ok vs
unfolding read_all write_all
read_all-write_all memory [] [] d e = refl
read_all-write_all memory [] (v ∷ vs) d e = absurd (omega arith)
read_all-write_all memory (p ∷ ps) [] d e = absurd (omega arith)
read_all-write_all memory (p ∷ ps) (v ∷ vs) d e = ground (
  arith,
  get-write_all_ne (insert p v memory) ps vs p d.0,
  get-insert p p v memory,
  read_all-write_all (insert p v memory) ps vs d.1 (omega arith),
)

-- What was copied to user memory is read back, if the range can also be read and its physical
-- addresses are distinct.
pub copy_from_user-copy_to_user :
    (s : AddressSpace) (memory memory' : UserMemory) (start : ℕ) (input ps : List ℕ)
    → copy_to_user s memory start input ≡ (memory', ok tt)
    → validate_user_range s start (length input) page_read ≡ ok ps
    → Distinct ps
    → copy_from_user s memory' start (length input) ≡ ok input
unfolding copy_to_user copy_from_user validate_user_range
copy_from_user-copy_to_user s memory memory' start input ps h k d =
    elim (Result-cases (user_addresses s start page_write (length input) 0)) [
      | inl (qs, e) ↦
          let same = addresses_same s start page_write page_read (length input) 0 qs ps e k in
          let len = user_addresses-length s start page_read (length input) 0 ps k in
          let back = read_all-write_all memory ps input d len in ground arith
      | inr (x, e) ↦ absurd (ground arith)
    ]
