-- ===== src/Lib.antt =====
-- PQChat: the Go code under crypto/, relay/ and translog/.
--
-- The program and its parts. A user has a hybrid identity (Ed25519 and ML-DSA-65) that signs a
-- Merkle root over a batch of one-time hybrid KEM prekeys (X25519 and ML-KEM-768) and a reusable
-- last-resort prekey. A relay hands each one-time prekey out once and queues sealed messages. An
-- initiator checks a prekey bundle, encapsulates to it and sends its first message in the same
-- packet; from then on both sides run a Double Ratchet with periodic ML-KEM injections. A
-- transparency log publishes signed Merkle roots over all identity keys, which clients check, compare
-- and gossip about.
--
-- Files and the code that they model:
--   Merkle: crypto/merkle/merkle.go. build_tree, root, inclusion_proof, verify_inclusion_proof are
--     BuildTree, Root, InclusionProof, VerifyInclusionProof. Children: PowerOfTwo (nextPowerOfTwo),
--     Levels and Proofs (the shape of a tree and of its paths), Completeness, Soundness and Accepted
--     (what an accepted path proves, with the hash inputs that would collide listed).
--   Identity: crypto/identity/identity.go. Children: Signing, Keys.
--   KemHybrid: crypto/kemhybrid/hybrid.go. Child: Agreement.
--   Prekey: crypto/prekey/prekey.go. Children: Batches, Bundles, Membership, Resort.
--   Ratchet: crypto/ratchet. Header (header.go, with RoundTrip), Kdf (kdf.go, aead.go), State, Action,
--     Sending and Receiving (ratchet.go), and what they satisfy: Skipping, Calls, Delivery and
--     Reordered (one chain), Starting and Opening (a new sending chain), Entering (a new receiving
--     chain), Linked and Turn (the invariant of two parties, and how an answer keeps it),
--     FirstContact, Late, Arrival, Post, Held and Underway (messages on the way, and how the invariant
--     stands when they are sent and arrive), Letters (conversations), Conversation, Crossing
--     (with Beside and Alongside: sending and receiving do not disturb each other), Overtaken, Misuse, Replayed.
--   Session: crypto/session/session.go. Children: Established, and Wire (wire.go, with RoundTrip).
--   Relay: relay/relay.go. Children: Prekeys, Pool, Issues, WellKept, OneTime and InOrder (issuing of
--     prekeys), Queues, Expiry, Contract (what the relay promises, as functions from a user to an
--     identity, a list of prekeys and a queue), Serves and Refines (that it keeps the contract).
--   Translog: translog/log.go, sth.go, client.go, simulate.go. View: witness.go. Children: Log,
--     Sound, Heads, Latest, Inclusion, Gossip, Detection, Returns, Exchange, Calm, Honest.
--   EndToEnd: a first message through session, wire form and relay to a user who is offline.
--   Codec: the length-prefixed fields that header.go and wire.go read and write.
--   Crypto: the code outside the program, as parameters with named laws. Common and Result: shared
--     types and lemmas. Tests: runs at concrete inputs.
--
-- State and calls. A struct is a record and a method a function from state to state. Relay and log
-- hold one mutex from the first line of a method to its return, so a call is one step, and a history
-- is a list of calls. A method of the ratchet may change the state before it fails; it is an Action,
-- which returns the changed state with the error. A Go result (value, error) is `ok` or `err`; `panic`
-- is a runtime panic and `diverges` a loop that does not end. Draws of crypto/rand and readings of the
-- clock are arguments.
--
-- Bounds and fuel. An int that a caller may make negative is a ℤ; lengths, counters and the clock are
-- natural numbers; uint32 counters and indices wrap at 2 ^ 32 where the code makes them. The loop of
-- nextPowerOfTwo keeps the 64 bits of its int, and 65 rounds decide it, since 64 doublings make it 0.
-- Levels and depth take 63 rounds, as a slice or a width has less than 2 ^ 63 elements. A decimal
-- index has at most 19 digits. All other loops are structural. The number of messages since the last
-- injection is taken to stay below 2 ^ 63, and times not to reach the saturation of time.Duration.
--
-- A conversation is a sequence of steps: a first message; further messages of the party that spoke
-- last, each of which arrives at once or is on the way; answers of the other, which arrive at once; and
-- the arrival of any message that is on the way, in any order. A message that is never received stays
-- on the way. A message that crosses an answer is no step of its own; Crossing leads it back to those
-- steps. A new chain whose first message is itself late is not a step.
--
-- What is not modelled: the Go tests and crypto/kat; pointers that are nil where the code does not test
-- them, other than the key pointers of a ratchet state; the order in which Go walks a map, for which
-- any order is taken; memory that two values share, since no function writes to a slice that it was
-- given. The cryptography is a parameter: hashes, signatures, KEM, key exchange, HKDF, HMAC and AEAD
-- have only the laws that are stated in Crypto. Secrecy is not stated. Go strings are their bytes.
pub mod Common
pub mod Result
pub mod Merkle
pub mod Codec
pub mod Crypto
pub mod Ratchet
pub mod Identity
pub mod KemHybrid
pub mod Prekey
pub mod Relay
pub mod EndToEnd
pub mod Session
pub mod Translog
mod Tests
