-- ===== src/Services.antt =====
-- backend/app/services: the business transactions, as actions of a session.
pub mod Cursor
pub mod Conversation
pub mod Message
pub mod History
pub mod Receipt
pub mod Attachment
pub mod Auth
pub mod Presence
pub mod CleanupWorker
