-- ===== src/Examples/Stores.antt =====
-- Fixed-capacity storage and port writes on short runs (kernel/src/storage.rs, device.rs).
use bulla.Prelude.{ℕ, refl, some, List, ok, ◌*◌, ◌%◌, ◌^◌, ◌≡◌, [], ◌∷◌}
use bulla.Prelude.Map.{nat_key}
use bulla.Capability.{Capability, CapabilityKind, contains_range}
use bulla.Storage.{new_ring, new_vec}
use bulla.Storage.Fifo
use bulla.Storage.Calls
use bulla.Device.Registers.{mmio_read-mmio_write}
use bulla.Device.{bytes, mmio_read, mmio_write, DeviceWidth, new_bus, validate_range}

-- A ring of two places, around its end.
abbrev traffic : List (Fifo.Call ℕ)
traffic = Fifo.pushes 1 ∷ Fifo.pushes 2 ∷ Fifo.pushes 3 ∷ Fifo.pops ∷ Fifo.pushes 4 ∷ Fifo.pops ∷ []

ring_run-queue_example : Fifo.ring_run (new_ring 0 2) traffic ≡ some (Fifo.queue_run 2 [] traffic)
ring_run-queue_example = Fifo.ring_run-queue 0 2 traffic

abbrev edits : List (Calls.Call ℕ)
edits = Calls.pushes 1 ∷ Calls.sets 0 5 ∷ Calls.gets 0 ∷ Calls.gets 1 ∷ Calls.pops ∷ Calls.pops ∷ []

vec_run-list_example : Calls.vec_run (new_vec 0 2) edits ≡ some (Calls.list_run 2 [] edits)
vec_run-list_example = Calls.vec_run-list 0 2 edits

abbrev ports : Capability
ports = record {
  kind = CapabilityKind.io_port;
  slot = 1;
  owner = 1;
  rights = 2;
  generation = 0;
  base = 65532;
  len = 4;
}

abbrev registers : Capability
registers = record {
  kind = CapabilityKind.mmio;
  slot = 1;
  owner = 1;
  rights = 3;
  generation = 0;
  base = 4096;
  len = 4096;
}

-- The value has more bits than the register.
mmio_read-mmio_write_example :
    mmio_read
      (mmio_write new_bus registers 4100 DeviceWidth.u16 0x12345).0
      registers
      4100
      DeviceWidth.u16
    ≡ ok (0x12345 % 2 ^ (bytes DeviceWidth.u16 * 8))
unfolding validate_range contains_range bytes mmio_write
mmio_read-mmio_write_example =
    mmio_read-mmio_write new_bus registers registers 4100 DeviceWidth.u16 0x12345
      (mmio_write new_bus registers 4100 DeviceWidth.u16 0x12345).0 refl refl
