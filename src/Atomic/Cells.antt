-- ===== src/Atomic/Cells.antt =====
-- One atomic cell over any calls: its width, wrap-around and exchanges (kernel/src/atomic.rs).
use bulla.Prelude.{
  ℕ, bit_and, refl, sym, ap, Bool, true, false, List, arith, ==_iff, Bool-cases, ok, Result-cases,
  u64_mod, add64, inl, inr, ◌+◌, ◌-◌, ◌%◌, ◌^◌, ◌<◌, ◌≡◌, ◌∙◌, ◌≢◌, ◌&&◌, [], ◌∷◌, ◌==◌,
}
use bulla.Prelude.Powers.{low_mask, pow-pos}
use native.Mathlib.Nat.{mod-lt}
use bulla.Capability.{Capability}
use bulla.Atomic.{
  AtomicOrdering, AtomicWidth, AtomicCell, CompareExchange, mask, create, write_cell, store, swap,
  is_acquiring, compare_exchange, compare_exchange_weak, validate_compare_exchange, fetch_add,
  fetch_sub, fetch_and, fetch_or, fetch_xor, bool, u32, u64, usize,
}

-- The bits that a cell of this width keeps.
abbrev pub bits : AtomicWidth → ℕ
bits bool = 1
bits u32 = 32
bits u64 = 64
bits usize = 64

mask-bits : (w : AtomicWidth) (x : ℕ) → bit_and x (mask w) ≡ x % 2 ^ bits w
unfolding mask
mask-bits bool x = low_mask 1 x
mask-bits u32 x = low_mask 32 x
mask-bits u64 x = low_mask 64 x
mask-bits usize x = low_mask 64 x

pub data Call : Type 0 where
  stores swaps adds subtracts conjoins disjoins differs : ℕ → AtomicOrdering → Call
  exchanges : ℕ → ℕ → AtomicOrdering → AtomicOrdering → Call
  exchanges_weakly : ℕ → ℕ → AtomicOrdering → AtomicOrdering → Bool → Call

-- The cell after a call, whether it succeeded or not; a load changes nothing.
unfoldable pub after : AtomicCell → Call → AtomicCell
after c (stores v o) = (store c v o).0
after c (swaps v o) = (swap c v o).0
after c (adds v o) = (fetch_add c v o).0
after c (subtracts v o) = (fetch_sub c v o).0
after c (conjoins v o) = (fetch_and c v o).0
after c (disjoins v o) = (fetch_or c v o).0
after c (differs v o) = (fetch_xor c v o).0
after c (exchanges current new s f) = (compare_exchange c current new s f).0
after c (exchanges_weakly current new s f spurious) =
    (compare_exchange_weak c current new s f spurious).0

unfoldable pub run : AtomicCell → List Call → AtomicCell
run c [] = c
run c (k ∷ ks) = run (after c k) ks

-- The cell kept its width and address, and its value fits the width.
record Fits (w : AtomicWidth) (at : ℕ) (c : AtomicCell) : Type 0 where
  width : c.width ≡ w
  address : c.address ≡ at
  below : c.value < 2 ^ bits w

bits-mod : (w : AtomicWidth) (x : ℕ) → x % 2 ^ bits w < 2 ^ bits w
bits-mod w x = mod-lt x (pow-pos (bits w))

write_cell-value : (c : AtomicCell) (v : ℕ) → (write_cell c v).value ≡ v % 2 ^ bits c.width
unfolding write_cell
write_cell-value c v = mask-bits c.width v

write_cell-Fits :
    (w : AtomicWidth) (a : ℕ) (c : AtomicCell) (v : ℕ) → Fits w a c → Fits w a (write_cell c v)
unfolding write_cell
write_cell-Fits w a c v f = record {
  width = f.width;
  address = f.address;
  below = rw (mask-bits c.width v, f.width) (bits-mod w v);
}

compare_exchange-Fits :
    (w : AtomicWidth) (a : ℕ) (c : AtomicCell) (current new : ℕ) (s t : AtomicOrdering)
    → Fits w a c
    → Fits w a (compare_exchange c current new s t).0
unfolding compare_exchange
compare_exchange-Fits w a c current new s t f =
    elim (Result-cases (validate_compare_exchange s t)) [
      | inl (_, v) ↦ elim (Bool-cases (c.value == bit_and current (mask c.width))) [
        | inl e ↦ rw (v, e) (write_cell-Fits w a c new f)
        | inr e ↦ rw (v, e) f
      ]
      | inr (_, v) ↦ rw v f
    ]

after-Fits :
    (w : AtomicWidth) (a : ℕ) (c : AtomicCell) (k : Call) → Fits w a c → Fits w a (after c k)
unfolding after store swap fetch_add fetch_sub fetch_and fetch_or fetch_xor compare_exchange_weak
after-Fits w a c (stores v o) f = elim (Bool-cases (is_acquiring o)) [
  | inl e ↦ rw (e, after, store) f
  | inr e ↦ rw (e, after, store) (write_cell-Fits w a c v f)
]
after-Fits w a c (swaps v o) f = write_cell-Fits w a c v f
after-Fits w a c (adds v o) f = write_cell-Fits w a c _ f
after-Fits w a c (subtracts v o) f = write_cell-Fits w a c _ f
after-Fits w a c (conjoins v o) f = write_cell-Fits w a c _ f
after-Fits w a c (disjoins v o) f = write_cell-Fits w a c _ f
after-Fits w a c (differs v o) f = write_cell-Fits w a c _ f
after-Fits w a c (exchanges current new s t) f = compare_exchange-Fits w a c current new s t f
after-Fits w a c (exchanges_weakly current new s t spurious) f =
    elim (Result-cases (validate_compare_exchange s t)) [
      | inl (_, v) ↦ elim (Bool-cases (spurious && (c.value == bit_and current (mask c.width)))) [
        | inl e ↦ rw (v, e, after, compare_exchange_weak) f
        | inr e ↦
            rw (v, e, after, compare_exchange_weak) (compare_exchange-Fits w a c current new s t f)
      ]
      | inr (_, v) ↦ rw (v, after, compare_exchange_weak) f
    ]

run-Fits :
    (w : AtomicWidth) (a : ℕ) (ks : List Call) (c : AtomicCell) → Fits w a c → Fits w a (run c ks)
unfolding run
run-Fits w a [] c f = f
run-Fits w a (k ∷ ks) c f = run-Fits w a ks (after c k) (after-Fits w a c k f)

create-Fits :
    (backing : Capability) (w : AtomicWidth) (a initial : ℕ) (c : AtomicCell)
    → create backing w a initial ≡ ok c
    → Fits w a c
unfolding create
create-Fits backing w a initial c h = record {
  width = ground (arith, h);
  address = ground (arith, h);
  below =
      let same : c.value ≡ bit_and initial (mask w) = ground (arith, h) in
      rw (same, mask-bits w initial) (bits-mod w initial);
}

-- From its creation on and over any stores, exchanges and arithmetic, a cell's value stays within
-- the bits of the width it was created with, at the address it was created at.
pub run_within :
    (backing : Capability) (w : AtomicWidth) (address initial : ℕ) (c : AtomicCell) (ks : List Call)
    → create backing w address initial ≡ ok c
    → ((run c ks).value < 2 ^ bits w) × ((run c ks).address ≡ address)
run_within backing w address initial c ks h =
    let f = run-Fits w address ks c (create-Fits backing w address initial c h) in
    (f.below, f.address)

wrap_once : (w : AtomicWidth) (x : ℕ) → x % u64_mod % 2 ^ bits w ≡ x % 2 ^ bits w
wrap_once bool x = omega arith
wrap_once u32 x = omega arith
wrap_once u64 x = omega arith
wrap_once usize x = omega arith

wrap_back :
    (w : AtomicWidth) (a v : ℕ)
    → a < 2 ^ bits w
    → v < u64_mod
    → ((a + v) % 2 ^ bits w + u64_mod - v) % u64_mod % 2 ^ bits w ≡ a
wrap_back bool a v p q = omega arith
wrap_back u32 a v p q = omega arith
wrap_back u64 a v p q = omega arith
wrap_back usize a v p q = omega arith

fetch_add-value :
    (c : AtomicCell) (v : ℕ) (o : AtomicOrdering)
    → (fetch_add c v o).0.value ≡ (c.value + v) % 2 ^ bits c.width
unfolding fetch_add
fetch_add-value c v o = write_cell-value c (add64 c.value v) ∙ wrap_once c.width (c.value + v)

-- Arithmetic wraps at the width of the cell: an addition returns the old value, and a subtraction
-- of the same operand after it returns the wrapped sum and restores a value that fits the cell.
pub fetch_sub-fetch_add :
    (c : AtomicCell) (v : ℕ) (o : AtomicOrdering)
    → c.value < 2 ^ bits c.width
    → v < u64_mod
    → let added = fetch_add c v o in
      (added.1 ≡ ok c.value)
      × ((fetch_sub added.0 v o).1 ≡ ok ((c.value + v) % 2 ^ bits c.width))
      × ((fetch_sub added.0 v o).0.value ≡ c.value)
unfolding fetch_add fetch_sub write_cell
fetch_sub-fetch_add c v o p q =
    let sum = fetch_add-value c v o in
    (
      refl,
      ap ok sum,
      mask-bits c.width _
          ∙ ap (λ t. (t + u64_mod - v) % u64_mod % 2 ^ bits c.width) sum
          ∙ wrap_back c.width c.value v p q,
    )

exchanged-write_cell :
    (c : AtomicCell) (current new : ℕ) (s t : AtomicOrdering) (d : AtomicCell) (r : CompareExchange)
    → compare_exchange c current new s t ≡ (d, ok r)
    → r.exchanged ≡ true
    → d ≡ write_cell c new
unfolding compare_exchange
exchanged-write_cell c current new s t d r h e = ground (arith, h, e)

compare_exchange-other :
    (c : AtomicCell) (current new : ℕ) (s t : AtomicOrdering) (d : AtomicCell) (r : CompareExchange)
    → compare_exchange c current new s t ≡ (d, ok r)
    → c.value ≢ bit_and current (mask c.width)
    → (r ≡ record { previous = c.value; exchanged = false }) × (d ≡ c)
unfolding compare_exchange
compare_exchange-other c current new s t d r h n =
    ground (arith, h, n, (==_iff c.value (bit_and current (mask c.width))).0)

-- Of two exchanges that expect the same value, the second fails once the first took place with a
-- new value that differs within the cell's width: it changes nothing and reports the first one's
-- value, so a cell taken this way has one holder.
pub compare_exchange-once :
    (c : AtomicCell) (current new other : ℕ) (s t u v : AtomicOrdering) (d : AtomicCell)
    (r : CompareExchange) (e : AtomicCell) (q : CompareExchange)
    → bit_and new (mask c.width) ≢ bit_and current (mask c.width)
    → compare_exchange c current new s t ≡ (d, ok r)
    → r.exchanged ≡ true
    → compare_exchange d current other u v ≡ (e, ok q)
    → (q ≡ record { previous = bit_and new (mask c.width); exchanged = false }) × (e ≡ d)
unfolding write_cell
compare_exchange-once c current new other s t u v d r e q n h x k =
    let same = exchanged-write_cell c current new s t d r h x in
    let w : d.width ≡ c.width = ap (λ z. z.width) same in
    let y : d.value ≡ bit_and new (mask c.width) = ap (λ z. z.value) same in
    let differs : d.value ≢ bit_and current (mask d.width) =
      λ z. n (sym y ∙ z ∙ ap (λ b. bit_and current (mask b)) w) in
    let (a, b) = compare_exchange-other d current other u v e q k differs in
    (a ∙ ap (λ z. record { previous = z; exchanged = false }) y, b)
