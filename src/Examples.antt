-- ===== src/Examples.antt =====
-- Runs of the theorems on concrete inputs, one module for each part of the kernel.
mod Ledger
mod Cpus
mod Locks
mod Interrupts
mod Spaces
mod Frames
mod Events
mod Tasks
mod Dmas
mod Users
mod Memories
mod Stores
