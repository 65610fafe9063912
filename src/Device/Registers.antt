-- ===== src/Device/Registers.antt =====
-- A register read gives what was written there (kernel/src/device.rs).
use bulla.Prelude.{
  ℕ, zero, suc, bit_and, bit_or, sym, ap, some, arith, ltb, leb, ==_iff, Bool-cases, ok, inl, inr,
  ◌+◌, ◌-◌, ◌*◌, ◌/◌, ◌%◌, ◌^◌, ◌<◌, ◌≡◌, ◌∙◌, ◌&&◌, ◌==◌, if◌then◌else◌,
}
use bulla.Prelude.Map.{Map, get, insert, get-insert, nat_key}
use bulla.Prelude.Joins.{bit_or-disjoint, mod-join}
use bulla.Prelude.Powers.{pow-pos, pow-add, low_mask}
use native.Mathlib.Nat.{mod-lt, mod-mod, mod-one}
use bulla.Capability.{Capability, CapabilityKind, read}
use bulla.Device.{
  DeviceWidth, DeviceBus, bytes, mask, byte_at, validate_range, join_bytes, read_bytes, split_bytes,
  write_bytes, mmio_read, mmio_write, u8, u16, u32, u64,
}

-- The byte of a value at an index.
abbrev pub byte_of : ℕ → ℕ → ℕ
byte_of value i = value / 2 ^ (i * 8) % 256

-- The loop writes the bytes of its indexes, and no other.
pub split_bytes-get :
    (address value from count : ℕ) (values : Map ℕ ℕ) (j : ℕ)
    → get j (split_bytes address value from count values) ≡ (
        if leb (address + from) j && ltb j (address + from + count)
        then some (byte_of value (j - address))
        else get j values)
unfolding split_bytes
split_bytes-get address value from zero values j = ground arith
split_bytes-get address value from (suc count) values j =
    let new = byte_of value from in
    let rest =
      split_bytes-get address value (from + 1) count (insert (address + from) new values) j in
    let here = get-insert (address + from) j new values in
    elim (Bool-cases (address + from == j)) [
      | inl e ↦
          let at : address + from ≡ j = (==_iff (address + from) j).0 e in
          let place : j - address ≡ from = omega (arith, at) in
          ground (arith, rest, here, e, at, ap (byte_of value) place)
      | inr e ↦ ground (arith, rest, here, e, (==_iff (address + from) j).1)
    ]

add-sub_self : (a i : ℕ) → a + i - a ≡ i
add-sub_self a i = omega arith

split_bytes-byte_at :
    (address value count : ℕ) (values : Map ℕ ℕ) (i : ℕ)
    → i < count
    → byte_at (split_bytes address value 0 count values) (address + i) ≡ byte_of value i
split_bytes-byte_at address value count values i h = ground (
  arith,
  h,
  split_bytes-get address value 0 count values (address + i),
  ap (byte_of value) (add-sub_self address i),
)

-- The fold over bytes of a value gives the value's low bytes.
join_bytes-low :
    (values : Map ℕ ℕ) (at : ℕ → ℕ) (value from count acc : ℕ)
    → ((i : ℕ) → i < from + count → byte_at values (at i) ≡ byte_of value i)
    → acc ≡ value % 2 ^ (from * 8)
    → join_bytes values at from count acc ≡ value % 2 ^ ((from + count) * 8)
unfolding join_bytes
join_bytes-low values at value from zero acc h e = e ∙ ap (λ t. value % 2 ^ (t * 8)) (omega arith)
join_bytes-low values at value from (suc count) acc h e =
    let place = 2 ^ (from * 8) in
    let this = h from (omega arith) in
    let below : acc < place = omega (arith, e, mod-lt value (pow-pos (from * 8))) in
    let next : bit_or acc (byte_at values (at from) * place) ≡ value % 2 ^ ((from + 1) * 8) =
      ap (λ t. bit_or acc (t * place)) this
      ∙ bit_or-disjoint (from * 8) acc (byte_of value from) below
      ∙ ap (λ t. t + byte_of value from * place) e
      ∙ sym (mod-join value place 256 (pow-pos (from * 8)) (omega arith))
      ∙ ap (λ t. value % t) (sym (pow-add (from * 8) 8) ∙ ap (λ t. 2 ^ t) (omega arith)) in
    join_bytes-low values at value (from + 1) count _ (λ i p. h i (omega arith)) next
    ∙ ap (λ t. value % 2 ^ (t * 8)) (omega arith)

read_bytes-write_bytes :
    (values : Map ℕ ℕ) (address : ℕ) (width : DeviceWidth) (value : ℕ)
    → read_bytes (write_bytes values address width value) address width
      ≡ value % 2 ^ (bytes width * 8)
unfolding read_bytes write_bytes
read_bytes-write_bytes values address width value =
    join_bytes-low _ (λ i. address + i) value 0 (bytes width) 0
      (λ i p. split_bytes-byte_at address value (bytes width) values i (omega arith))
      (sym (mod-one value))
    ∙ ap (λ t. value % 2 ^ (t * 8)) (omega arith)

mask-bits : (width : DeviceWidth) (x : ℕ) → bit_and x (mask width) ≡ x % 2 ^ (bytes width * 8)
unfolding mask bytes
mask-bits u8 x = low_mask 8 x
mask-bits u16 x = low_mask 16 x
mask-bits u32 x = low_mask 32 x
mask-bits u64 x = low_mask 64 x

-- After a successful write of a memory-mapped register, a read of the same width there under any
-- capability that covers it gives the written value, reduced to the width of the register.
pub mmio_read-mmio_write :
    (d : DeviceBus) (c r : Capability) (address : ℕ) (width : DeviceWidth) (value : ℕ)
    (e : DeviceBus)
    → mmio_write d c address width value ≡ (e, ok tt)
    → validate_range r CapabilityKind.mmio read address width ≡ ok tt
    → mmio_read e r address width ≡ ok (value % 2 ^ (bytes width * 8))
unfolding mmio_read mmio_write
mmio_read-mmio_write d c r address width value e h v =
    let held : e.mmio ≡ write_bytes d.mmio address width value = ground (arith, h) in
    rw (mmio_read, v, held, mask-bits width, read_bytes-write_bytes d.mmio address width value)
      (ap ok (mod-mod value (2 ^ (bytes width * 8))))
