-- ===== src/Chat.antt =====
-- onto_platform/chat: the event bus of a chat turn, and the sessions over staging.
pub mod EventBus
pub mod Sessions
pub mod Turns
