-- ===== src/Storage/Bits.antt =====
-- A bit of a bitmap after another was written (kernel/src/storage.rs).
use bulla.Prelude.{
  ℕ, bit_and, refl, sym, ap, Bool, true, false, not, some, arith, ltb, leb, ltb→lt, ==_iff,
  Bool-cases, ok, err, u64_mod, inl, inr, ◌-◌, ◌*◌, ◌/◌, ◌%◌, ◌^◌, ◌≤◌, ◌<◌, ◌≡◌, ◌∙◌, ◌≢◌, ◌==◌,
  if◌then◌else◌,
}
use bulla.Prelude.Lists.{length}
use bulla.Prelude.Arrays.{get_elem?, set_elem?-some, get_elem?-some}
use bulla.Prelude.Digits.{
  digit, digit-test, digit-bit_or, digit-bit_and, digit-pow, digit-hole, digit-bound,
}
use bulla.Prelude.Powers.{pow-pos}
use bulla.Storage.{out_of_bounds}
use bulla.Storage.Ring.{different_zero}
use bulla.Storage.Tables.{Bitmap, changed, bit_set, bit_get}

abbrev number : Bool → ℕ
number true = 1
number false = 0

-- A word's bit after a change of one of its bits.
digit-changed :
    (w i k : ℕ) (value : Bool)
    → i < 64
    → k < 64
    → digit (changed w (2 ^ i) value) k ≡ (if i == k then number value else digit w k)
digit-changed w i k true p q =
    digit-bit_or w (2 ^ i) k ∙ ground (arith, digit-pow i k, digit-bound w k)
digit-changed w i k false p q =
    digit-bit_and w (u64_mod - 1 - 2 ^ i) k ∙ ground (arith, digit-hole 64 i k p q, digit-bound w k)

is_set-digit : (w k : ℕ) → not (bit_and w (2 ^ k) == 0) ≡ (digit w k == 1)
is_set-digit w k = elim (Bool-cases (digit w k == 1)) [
  | inl e ↦
      let one : bit_and w (2 ^ k) ≡ 2 ^ k =
        digit-test w k ∙ ap (λ t. t * 2 ^ k) ((==_iff (digit w k) 1).0 e) ∙ omega arith in
      rw (one, different_zero (2 ^ k) (pow-pos k), e) refl
  | inr e ↦
      let nil : digit w k ≡ 0 = ground (arith, e, digit-bound w k, (==_iff (digit w k) 1).1) in
      let clear : bit_and w (2 ^ k) ≡ 0 = digit-test w k ∙ ap (λ t. t * 2 ^ k) nil ∙ omega arith in
      rw (clear, e) refl
]

bit_get-digit :
    (b : Bitmap) (j w : ℕ)
    → get_elem? b.words (j / 64) ≡ some w
    → j / 64 < length b.words
    → bit_get b j ≡ some (ok (digit w (j % 64) == 1))
unfolding bit_get
bit_get-digit b j w found inside =
    let within : leb (length b.words) (j / 64) ≡ false = ground (arith, inside) in
    rw (bit_get, within, found, is_set-digit w (j % 64)) refl

bit_get-outside :
    (b : Bitmap) (j : ℕ) → length b.words ≤ j / 64 → bit_get b j ≡ some (err out_of_bounds)
unfolding bit_get
bit_get-outside b j outside =
    let beyond : leb (length b.words) (j / 64) ≡ true = ground (arith, outside) in
    rw (bit_get, beyond) refl

number-bit : (value : Bool) → (number value == 1) ≡ value
number-bit true = refl
number-bit false = refl

apart : (i j : ℕ) → i ≢ j → (i == j) ≡ false
apart i j h = ground (arith, h, (==_iff i j).0)

read_after :
    (b c : Bitmap) (i : ℕ) (value : Bool) (w : ℕ)
    → get_elem? b.words (i / 64) ≡ some w
    → i / 64 < length b.words
    → length c.words ≡ length b.words
    → ((k : ℕ)
        → get_elem? c.words k
          ≡ (if i / 64 == k then some (changed w (2 ^ (i % 64)) value) else get_elem? b.words k))
    → (j : ℕ) → bit_get c j ≡ (if i == j then some (ok value) else bit_get b j)
read_after b c i value w found h len at j = elim (Bool-cases (ltb (j / 64) (length b.words))) [
  | inl inside ↦
      let lt = ltb→lt (j / 64) (length b.words) inside in
      let lt' : j / 64 < length c.words = omega (arith, lt, len) in
      elim (Bool-cases (i / 64 == j / 64)) [
        | inl e ↦
            let word : i / 64 ≡ j / 64 = (==_iff (i / 64) (j / 64)).0 e in
            let old : get_elem? b.words (j / 64) ≡ some w =
              ap (get_elem? b.words) (sym word) ∙ found in
            let new : get_elem? c.words (j / 64) ≡ some (changed w (2 ^ (i % 64)) value) =
              at (j / 64) ∙ rw e refl in
            bit_get-digit c j (changed w (2 ^ (i % 64)) value) new lt'
            ∙ ap (λ t. some (ok (t == 1)))
                (digit-changed w (i % 64) (j % 64) value (omega arith) (omega arith))
            ∙ elim (Bool-cases (i % 64 == j % 64)) [
              | inl f ↦
                  let same : (i == j) ≡ true =
                    (==_iff i j).1 (omega (arith, word, (==_iff (i % 64) (j % 64)).0 f)) in
                  rw (f, same, number-bit value) refl
              | inr f ↦
                  let differ : (i == j) ≡ false =
                    apart i j
                      (λ q. ground (arith, f, ap (λ t. t % 64) q, (==_iff (i % 64) (j % 64)).1)) in
                  rw (f, differ) (sym (bit_get-digit b j w old lt))
            ]
        | inr e ↦
            let (u, old) = get_elem?-some b.words (j / 64) lt in
            let new : get_elem? c.words (j / 64) ≡ some u = at (j / 64) ∙ rw e old in
            let differ : (i == j) ≡ false =
              apart i j
                (λ q. ground (arith, e, ap (λ t. t / 64) q, (==_iff (i / 64) (j / 64)).1)) in
            bit_get-digit c j u new lt' ∙ rw differ (sym (bit_get-digit b j u old lt))
      ]
  | inr outside ↦
      let beyond : length b.words ≤ j / 64 = ground (arith, outside) in
      let differ : (i == j) ≡ false =
        apart i j (λ q. omega (arith, ap (λ t. t / 64) q, h, beyond)) in
      bit_get-outside c j (omega (arith, beyond, len))
      ∙ rw differ (sym (bit_get-outside b j beyond))
]

-- A bit inside the bitmap is written: the call answers so and does not panic, and every read
-- afterwards, of that bit, of another or outside, gives the written value there and elsewhere what
-- it gave before.
pub bit_get-bit_set :
    (b : Bitmap) (i : ℕ) (value : Bool)
    → i / 64 < length b.words
    → (c : Bitmap) × (bit_set b i value ≡ some (c, ok tt))
      × ((j : ℕ) → bit_get c j ≡ (if i == j then some (ok value) else bit_get b j))
unfolding bit_set
bit_get-bit_set b i value h =
    let (w, found) = get_elem?-some b.words (i / 64) h in
    let (ys, written, len, at) =
      set_elem?-some (i / 64) (changed w (2 ^ (i % 64)) value) b.words h in
    let within : leb (length b.words) (i / 64) ≡ false = ground (arith, h) in
    (
      record { words = ys },
      rw (bit_set, within, found, written) refl,
      read_after b (record { words = ys }) i value w found h len at,
    )
