-- ===== src/Serving.antt =====
-- src/serving/server.cpp: the request server.
pub mod Message
pub mod Decode
pub mod Validate
pub mod Loop
mod Tests
