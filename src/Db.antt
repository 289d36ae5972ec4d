-- ===== src/Db.antt =====
-- im_server/src/Database.h and Database.cpp: the tables, the connection, and each query and write.
pub mod Tables
pub mod Sql
pub mod Conversation
pub mod Friends
pub mod Messages
pub mod AuthSessions
pub mod Queue
pub mod Migration
pub mod Users
