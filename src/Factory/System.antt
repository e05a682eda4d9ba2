-- ===== src/Factory/System.antt =====
-- The factory as a whole: the messages that reach it, part by part between the awaits, and what
-- holds in every state that they lead to.
pub mod Sound
pub mod Handlers
pub mod Executions
pub mod Cleanup
pub mod Steps
