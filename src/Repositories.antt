-- ===== src/Repositories.antt =====
-- backend/app/repositories: the queries, as functions of the database. WHERE is a filter, ORDER BY
-- a sort, LIMIT a prefix, and a query without an order lists its rows as the table does.
pub mod Users
pub mod Tokens
pub mod Conversations
pub mod Messages
pub mod Receipts
pub mod Attachments
