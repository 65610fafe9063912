-- ===== src/Examples/Memories.antt =====
-- Atomic cells and the memory model on short runs (kernel/src/atomic.rs).
use bulla.Prelude.{
  bit_and, refl, true, false, List, arith, ok, ◌+◌, ◌%◌, ◌^◌, ◌<◌, ◌≡◌, [], ◌∷◌, ◌++◌,
}
use bulla.Prelude.Map.{get, nat_key}
use bulla.Capability.{Capability, CapabilityKind, contains_range}
use bulla.Atomic.{
  AtomicCell, AtomicWidth, CompareExchange, create, mask, compare_exchange, fetch_add, fetch_sub,
  relaxed, acquire, release, seq_cst, acq_rel,
}
use bulla.Atomic.Cells
use bulla.Atomic.Model.{AtomicEvent, AtomicMemoryModel, new_model, load}
use bulla.Atomic.Trace.{last_write}
use bulla.Atomic.Trace as Trace
use bulla.Atomic.Reads.{value_of, reads_edge, release_of, load_sees_last_write}

abbrev backing : Capability
backing = record {
  kind = CapabilityKind.phys_region;
  slot = 1;
  owner = 1;
  rights = 3;
  generation = 0;
  base = 4096;
  len = 4096;
}

abbrev cell : AtomicCell
cell = record {
  width = AtomicWidth.u32;
  address = 4096;
  value = 4294967295;
  modification_order = 0;
}

-- The sum passes the width of the cell.
run_within_example :
    ((Cells.run cell (Cells.adds 1 relaxed ∷ [])).value < 2 ^ 32)
    × ((Cells.run cell (Cells.adds 1 relaxed ∷ [])).address ≡ 4096)
unfolding create contains_range mask bulla.Atomic.bytes
run_within_example =
    Cells.run_within backing AtomicWidth.u32 4096 4294967295 cell (Cells.adds 1 relaxed ∷ []) refl

fetch_sub-fetch_add_example :
    let added = fetch_add cell 5 relaxed in
    (added.1 ≡ ok cell.value)
    × ((fetch_sub added.0 5 relaxed).1 ≡ ok ((cell.value + 5) % 2 ^ Cells.bits cell.width))
    × ((fetch_sub added.0 5 relaxed).0.value ≡ cell.value)
fetch_sub-fetch_add_example = Cells.fetch_sub-fetch_add cell 5 relaxed (omega arith) (omega arith)

abbrev free : AtomicCell
free = record { width = AtomicWidth.bool; address = 4096; value = 0; modification_order = 0 }

abbrev held : AtomicCell
held = (compare_exchange free 0 1 acquire relaxed).0

abbrev refused : CompareExchange
refused = record { previous = 1; exchanged = false }

-- A lock of one bit, taken by the first of two contenders.
compare_exchange-once_example :
    (refused ≡ record { previous = bit_and 1 (mask free.width); exchanged = false }) × (held ≡ held)
unfolding compare_exchange mask bulla.Atomic.validate_compare_exchange bulla.Atomic.write_cell
compare_exchange-once_example =
    Cells.compare_exchange-once free 0 1 1 acquire relaxed acquire relaxed held
      (record { previous = 0; exchanged = true }) held refused (λ h. ground (arith, h)) refl refl
      refl

abbrev trace : List Trace.Call
trace = Trace.stored 0 3 17 release ∷ Trace.fenced 1 bulla.Atomic.Model.hardware seq_cst ∷ []

abbrev model : AtomicMemoryModel
model = Trace.run (Trace.registered new_model ((3, 0) ∷ [])) trace

load_sees_last_write_example :
    let w = last_write model.events 3 in
    (e : AtomicEvent) × ((load model 1 3 acquire).0.events ≡ model.events ++ (e ∷ []))
    × (17 ≡ value_of 17 w)
    × (e.value ≡ 17)
    × (e.reads_from ≡ reads_edge w)
    × (e.happens_after_release ≡ release_of acquire w)
unfolding load get Trace.run Trace.after bulla.Atomic.Model.fence bulla.Atomic.Model.store
    Trace.registered bulla.Atomic.Model.register bulla.Prelude.Map.insert
load_sees_last_write_example =
    load_sees_last_write ((3, 0) ∷ []) trace 1 3 acquire (load model 1 3 acquire).0 17 3 refl
