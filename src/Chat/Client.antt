-- ===== src/Chat/Client.antt =====
-- examples/chat/chat_client/src/: the client in the browser. Its actors are the application, the
-- list of users, the window with the lines of the chat, and one for each user.
pub mod Color
pub mod User
pub mod Page
pub mod UserList
pub mod ChatWindow
pub mod App
pub mod Turns
pub mod Form
pub mod Single
pub mod Sync
pub mod Showing
pub mod Rendering
pub mod Follow
pub mod Boxes
pub mod Schedule
pub mod AppTurns
pub mod ListTurns
pub mod WindowTurns
pub mod AnyOrder
pub mod Chains
pub mod Progress
pub mod Overtaking
pub mod Welcoming
pub mod Connecting
