-- ===== src/Ratchet.antt =====
-- crypto/ratchet: the state of a session, its key derivation, sending and receiving.
pub mod Header
pub mod Kdf
pub mod State
pub mod Action
pub mod Sending
pub mod Receiving
pub mod Skipping
pub mod Starting
pub mod Calls
pub mod Opening
pub mod Entering
pub mod Delivery
pub mod Reordered
pub mod Linked
pub mod Turn
pub mod FirstContact
pub mod Late
pub mod Arrival
pub mod Post
pub mod Held
pub mod Underway
pub mod Letters
pub mod Conversation
pub mod Overtaken
pub mod Misuse
pub mod Replayed
pub mod Beside
pub mod Alongside
pub mod Crossing
