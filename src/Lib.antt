-- ===== src/Lib.antt =====
-- A model of the bulla kernel crate (kernel/src), and what holds of it.
--
-- The kernel is a set of state machines that never touch hardware. A ledger holds the authority
-- over resources as capabilities; the executor lets the platform dispatch an action only when the
-- ledger backs it; the sequencer numbers events and actions; the policy turns one event into a
-- batch of actions. The CPU states, interrupts, address spaces, frames and locks are components
-- of their own, which take capabilities as arguments.
--
-- Which file models which part:
--   Capability.antt   kernel/src/capability.rs: Rights, Capability, CapabilityLedger. Its children
--                     hold the calls in sequence (Calls), validation (Handles), the history of a
--                     record (History) and revocation (Revocation).
--   Action.antt       kernel/src/event.rs: Action, validate_action, action_authority and
--                     ActionExecutor::authorize; Action/Grants says of each action what a handle
--                     must be, apart from the source's two tables; Action/Authority ties the
--                     executor to it and to the ledger.
--   Event.antt        kernel/src/event.rs: EventSequencer; Event/Order its numbering.
--   Policy.antt       kernel/src/policy.rs: KernelPolicy; Policy/Steps its runs over many events.
--   Smp.antt          kernel/src/smp.rs: CPU lifecycle, IPI and shootdown epochs; Smp/Underway
--                     follows one shootdown through the calls made meanwhile.
--   Sync.antt         kernel/src/sync.rs: TicketLock, OnceCell, BoundedMpsc, Barrier.
--   Irq.antt          kernel/src/irq.rs: IrqController; Irq/Calls its calls in sequence,
--                     Irq/Tokens its saved states.
--   Memory.antt       kernel/src/memory.rs: AddressSpace; Memory/User the user copies,
--                     with Copies and Writes for what they read and write; Memory/Window the
--                     temporary window; the other children hold the layout of the mappings and
--                     the translation.
--   Frame.antt        kernel/src/frame.rs: FrameAllocator; its children count how often each byte
--                     lies in a run, through the choice of a run (Fit), the cut (Allocation),
--                     coalescing (Coalesce) and each call (Calls, Halves), up to what any
--                     sequence of calls keeps (Conservation).
--   Scheduler.antt    kernel/src/scheduler.rs: Scheduler; its children hold where a task stands
--                     (Places), stealing (Steal), each call (Calls, Dispatch), the audit that the
--                     source makes (Audit) and runs of calls (Runs).
--   Dma.antt          kernel/src/dma.rs: DmaState; Dma/Slots the life of a slot, Dma/Domains the
--                     translations.
--   Context.antt      kernel/src/context.rs: UserContext; Context/Calls its runs.
--   Atomic.antt       kernel/src/atomic.rs: AtomicCell; Atomic/Cells one cell over calls.
--                     Atomic/Model is AtomicMemoryModel; Atomic/Trace, Moves, Agreement and
--                     Reads say what its trace of events shows.
--   Device.antt       kernel/src/device.rs: DeviceBus; Device/Ports the port writes,
--                     Device/Registers the memory-mapped registers.
--   Services.antt     kernel/src/services.rs: PlatformServices; Services/Calls its runs.
--   Storage.antt      kernel/src/storage.rs: FixedVec and RingBuffer, with Storage/Tables for
--                     FixedMap and Bitmap; Storage/Ring, Fifo, Vectors and Calls compare the
--                     first two with a queue and a list.
--   Prelude.antt      the shared helpers: results, machine words, ordered maps, sets, sums.
--   Examples.antt     the theorems at concrete inputs.
--
-- How the code is read. A method that changes its receiver becomes a function from the state and
-- the arguments to the new state and a Result, the state on an error path included: what the
-- source writes before it returns an error is written here too. A BTreeMap is a list in ascending
-- order of keys, a BTreeSet a list in ascending order. Integers are natural numbers, and each
-- checked, saturating or wrapping operation bounds or reduces them at its own width; arguments
-- are taken to fit their types where a statement needs it, and says so. usize has 64 bits. No
-- definition uses fuel: every loop of these files runs over a map, a set, a list or a count of
-- bytes, and is a recursion on it. PagePermissions, Rights and UserMemory are the values that they wrap.
--
-- The two types of storage.rs that index an array return nothing where the source would panic.
--
-- Not modelled: kernel/src/registry.rs, boundary.rs and lib.rs, which hold tables, constants and
-- declarations; the platform runtime under platform/, which is firmware calls, assembly and device
-- registers; the tests under kernel/tests. The formatting of bytes and the accessors that return
-- a field have no definition of their own.
pub mod Prelude
pub mod Capability
pub mod Action
pub mod Dma
pub mod Event
pub mod Policy
pub mod Smp
pub mod Sync
pub mod Scheduler
pub mod Irq
pub mod Memory
pub mod Frame
pub mod Context
pub mod Atomic
pub mod Device
pub mod Services
pub mod Storage
pub mod Examples
