-- ===== src/LockFreeList.antt =====
-- lockfreelist.go: the lock-free list, with each atomic load and each compare-and-swap as one step.
-- A node that no other goroutine can see yet is made in the step that links it, so the stores into
-- private nodes have no steps of their own.
pub mod State
pub mod Task
pub mod Action
pub mod System
pub mod Nodes
pub mod Chain
pub mod Keep
pub mod Safe
pub mod Fresh
pub mod Progress
pub mod Walk
pub mod Loops
pub mod Alone
pub mod Count
pub mod Taken
pub mod Once
mod Examples
