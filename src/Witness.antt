-- ===== src/Witness.antt =====
-- Concrete runs: a platform that keeps its promises, and each theorem applied on it.
pub mod Pickle
pub mod Reference
pub mod Samples
mod Store
mod Disks
mod Edits
mod Upkeep
pub mod Decorators
mod Stampedes
mod Pickles
mod Backends
pub mod Contracts
mod Alike
mod Changes
mod Mappings
mod Locks
mod Fanouts
mod Queues
pub mod Deques
mod Openings
