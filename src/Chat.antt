-- ===== src/Chat.antt =====
-- The chat server's handlers (ChatSever/LogicSystem.cpp) and what they act on.
pub mod Json
pub mod World
pub mod Redis
pub mod Online
pub mod Server
pub mod Users
pub mod Text
pub mod Friends
pub mod Groups
pub mod Login
pub mod Trace
pub mod History
pub mod Service
