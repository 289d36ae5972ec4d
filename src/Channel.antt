-- ===== src/Channel.antt =====
-- im_server/src/Session.h and Session.cpp: one connection with its secure channel.
pub mod State
pub mod Frames
pub mod Handshake
pub mod Session
