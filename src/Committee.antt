-- ===== src/Committee.antt =====
-- The committee's messages, committee/pubshares.go.
pub mod Publish
pub mod Message
pub mod Match
pub mod Demonstration
mod Tests
