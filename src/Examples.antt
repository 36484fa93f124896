-- ===== src/Examples.antt =====
-- Concrete inputs: each property at a value where its hypotheses hold.
pub mod Wire
pub mod Session
pub mod UserMgr
pub mod Persist
pub mod Gate
pub mod Pools
pub mod LogicQueue
mod Documents
mod Chat
mod Dao
mod Approvals
mod Peers
mod Services
mod Transactions
