-- ===== src/Server/GuiInterface.antt =====
-- server/src/guiInterface.c: the commands of a client and the replies to them.
pub mod Desk
pub mod Initialise
pub mod Update
pub mod History
pub mod Edits
pub mod Dispatch
pub mod Effects
pub mod Rereading
pub mod Logs
