-- ===== src/Device.antt =====
-- kernel/src/device.rs: the device bus, memory-mapped and port registers as bytes.
pub mod Ports
pub mod Registers
use bulla.Prelude.{
  ℕ, zero, suc, min, bit_and, bit_or, Bool, true, false, not, none, some, ltb, Result, ok, err,
  refuse_if, ok_or, attempt, u32_mod, u64_mod, checked_add, ◌+◌, ◌-◌, ◌*◌, ◌/◌, ◌%◌, ◌^◌, [], ◌==◌,
  if◌then◌else◌, ◌>>=◌, ◌>>◌,
}
use bulla.Prelude.Map.{Map, get, insert, nat_key}
use bulla.Capability.{
  Capability, CapabilityKind, Rights, kind_eq, contains, contains_range, read, write,
}

pub data DeviceWidth : Type 0 where
  u8 u16 u32 u64 : DeviceWidth

unfoldable pub bytes : DeviceWidth → ℕ
bytes u8 = 1
bytes u16 = 2
bytes u32 = 4
bytes u64 = 8

unfoldable pub mask : DeviceWidth → ℕ
mask u8 = 0xff
mask u16 = 0xffff
mask u32 = u32_mod - 1
mask u64 = u64_mod - 1

pub data DeviceBarrier : Type 0 where
  compiler reads writes full : DeviceBarrier

pub data DeviceError : Type 0 where
  wrong_capability missing_rights out_of_range misaligned unsupported_width : DeviceError
  range_overflow : DeviceError

pub record DeviceBus : Type 0 where
  pub mmio : Map ℕ ℕ
  pub pio : Map ℕ ℕ
  pub barrier_epoch : ℕ

abbrev pub new_bus : DeviceBus
new_bus = record { mmio = []; pio = []; barrier_epoch = 0 }

unfoldable pub validate_range :
    Capability → CapabilityKind → Rights → ℕ → DeviceWidth → Result DeviceError (Unit {0})
unfolding bytes
validate_range c kind rights address width = do
  refuse_if (not (kind_eq c.kind kind)) wrong_capability
  refuse_if (not (contains c.rights rights)) missing_rights
  refuse_if (not (address % bytes width == 0)) misaligned
  refuse_if (not (contains_range c address (bytes width))) out_of_range

abbrev pub byte_at : Map ℕ ℕ → ℕ → ℕ
byte_at values address = elim (get address values) [ none ↦ 0 | some b ↦ b ]

-- The fold over the indexes `from` to `from + count`; `at index` is the byte's address.
unfoldable pub join_bytes : Map ℕ ℕ → (ℕ → ℕ) → ℕ → ℕ → ℕ → ℕ
join_bytes values at from zero value = value
join_bytes values at from (suc count) value =
    join_bytes values at (from + 1) count (bit_or value (byte_at values (at from) * 2 ^ (from * 8)))

unfoldable pub read_bytes : Map ℕ ℕ → ℕ → DeviceWidth → ℕ
unfolding join_bytes bytes
read_bytes values address width = join_bytes values (λ index. address + index) 0 (bytes width) 0

-- `port.saturating_add(index)` on `u16`
unfoldable pub read_port_bytes : Map ℕ ℕ → ℕ → DeviceWidth → ℕ
unfolding join_bytes bytes
read_port_bytes values port width =
    join_bytes values (λ index. min (port + index) 0xffff) 0 (bytes width) 0

-- The loop over the same indexes, each writing its byte of the value.
unfoldable pub split_bytes : ℕ → ℕ → ℕ → ℕ → Map ℕ ℕ → Map ℕ ℕ
split_bytes address value from zero values = values
split_bytes address value from (suc count) values =
    split_bytes address value (from + 1) count
      (insert (address + from) (value / 2 ^ (from * 8) % 256) values)

unfoldable pub write_bytes : Map ℕ ℕ → ℕ → DeviceWidth → ℕ → Map ℕ ℕ
unfolding split_bytes bytes
write_bytes values address width value = split_bytes address value 0 (bytes width) values

unfoldable pub mmio_read : DeviceBus → Capability → ℕ → DeviceWidth → Result DeviceError ℕ
unfolding validate_range read_bytes mask
mmio_read d c address width = do
  validate_range c CapabilityKind.mmio read address width
  ok (bit_and (read_bytes d.mmio address width) (mask width))

unfoldable pub mmio_write :
    DeviceBus → Capability → ℕ → DeviceWidth → ℕ → DeviceBus × Result DeviceError (Unit {0})
unfolding validate_range write_bytes
mmio_write d c address width value =
    attempt (validate_range c CapabilityKind.mmio write address width) d
      λ _. (record d { mmio = write_bytes d.mmio address width value }, ok tt)

abbrev pub is_wide : DeviceWidth → Bool
is_wide u64 = true
is_wide _ = false

unfoldable pub pio_read : DeviceBus → Capability → ℕ → DeviceWidth → Result DeviceError ℕ
unfolding validate_range read_port_bytes
pio_read d c port width = do
  refuse_if (is_wide width) unsupported_width
  validate_range c CapabilityKind.io_port read port width
  ok (read_port_bytes d.pio port width % u32_mod)

-- The loop of `pio_write`: the bytes before a port that does not exist stay written.
unfoldable pub split_port_bytes : ℕ → ℕ → ℕ → ℕ → Map ℕ ℕ → Map ℕ ℕ × Result DeviceError (Unit {0})
split_port_bytes port value from zero values = (values, ok tt)
split_port_bytes port value from (suc count) values =
    let rest =
      split_port_bytes port value (from + 1) count
        (insert (port + from) (value / 2 ^ (from * 8) % 256) values) in
    if ltb (port + from) 0x10000 then rest else (values, err range_overflow)

unfoldable pub pio_write :
    DeviceBus → Capability → ℕ → DeviceWidth → ℕ → DeviceBus × Result DeviceError (Unit {0})
unfolding validate_range split_port_bytes bytes
pio_write d c port width value = attempt (refuse_if (is_wide width) unsupported_width) d λ _.
    attempt (validate_range c CapabilityKind.io_port write port width) d λ _.
      let written = split_port_bytes port value 0 (bytes width) d.pio in
      (record d { pio = written.0 }, written.1)

unfoldable pub barrier : DeviceBus → DeviceBarrier → DeviceBus × Result DeviceError ℕ
barrier d _ =
    attempt (ok_or (checked_add d.barrier_epoch 1) range_overflow) d
      λ next. (record d { barrier_epoch = next }, ok next)
