-- ===== src/Chat.antt =====
-- examples/chat/chat_server/ and examples/chat/chat_format/: a chat server for clients of the
-- library. An actor `User` stands for each connection, and one actor `Server` for the room.
pub mod Format
pub mod Server
pub mod User
pub mod Nicks
pub mod Room
pub mod Client
pub mod Sole
pub mod News
pub mod Together
pub mod Entering
pub mod Renaming
pub mod Strays
pub mod Broadcast
pub mod Handling
pub mod Told
pub mod Keeping
pub mod Safety
pub mod Joining
pub mod Tests
pub mod Runs
pub mod Arrivals
