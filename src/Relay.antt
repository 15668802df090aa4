-- ===== src/Relay.antt =====
-- relay/relay.go. Every method holds the server's one mutex from its first line to its return, so a
-- call is one function from state to state. A user id is the bytes of a Go string; `time.Now()` is an
-- argument, in nanoseconds. The pointers in `prekeys` are not shared, so a write through one is an
-- insertion at its key.
pub mod Prekeys
pub mod Pool
pub mod Issues
pub mod WellKept
pub mod OneTime
pub mod Queues
pub mod Expiry
pub mod InOrder
pub mod Contract
pub mod Serves
pub mod Refines
use pqc_chat.Common.{
  ℕ, zero, suc, ◌+◌, ◌%◌, Bool, true, false, not, List, [], ◌∷◌, ◌++◌, Option, none, some, Bytes,
  Bytes_discrete, length, get_elem?, set, replicate, ltb, if◌then◌else◌,
}
use pqc_chat.Common.Int.{ℤ, pos, negsuc, ltℤ, sub_ℕ}
use pqc_chat.Common.Map.{Map, lookup, insert, erase}
use pqc_chat.Result.{
  Result, ok, err, panic, diverges, ◌>>=◌, or_panic, unknown_user, no_prekeys_published,
  no_prekeys_available,
}
use pqc_chat.Crypto.{Crypto}
use pqc_chat.Identity.{PublicKey}
use pqc_chat.Prekey.{Bundle, LastResort}

pub record QueuedMessage : Type 0 where
  pub from : Bytes
  pub envelope : Bytes
  pub queued_at : ℕ

pub record UserPrekeys : Type 0 where
  pub bundles : List Bundle
  pub consumed : List Bool
  pub next_cursor : ℕ
  pub last_resort : Option LastResort
  pub last_resort_use : ℕ

-- The number of bundles that are not consumed.
unfoldable pub remaining : List Bool → ℕ
remaining [] = 0
remaining (c ∷ cs) = if c then remaining cs else remaining cs + 1

pub record Server (c : Crypto) : Type 0 where
  pub identities : Map Bytes (PublicKey c)
  pub prekeys : Map Bytes UserPrekeys
  pub queues : Map Bytes (List QueuedMessage)

pub record Telemetry : Type 0 where
  pub remaining : ℕ
  pub batch_size : ℕ
  pub last_resort_uses : ℕ

-- The loop of `FetchPrekeyBundle` from round `i` on: the first index that is not consumed.
pub find_free : UserPrekeys → ℕ → ℕ → Result (Option ℕ)
find_free up zero i = ok none
find_free up (suc rounds) i =
    let idx = (up.next_cursor + i) % length up.bundles in
    let later = find_free up rounds (i + 1) in
    do used ← or_panic (get_elem? up.consumed idx); if used then later else ok (some idx)

-- What the loop's body does at the index that it found.
unfoldable pub take_bundle : UserPrekeys → ℕ → UserPrekeys
take_bundle up idx = record up {
  consumed = set up.consumed idx true;
  next_cursor = (idx + 1) % length up.bundles;
}

-- The end of `FetchPrekeyBundle`, where no bundle is free.
pub fall_back : UserPrekeys → Option LastResort → Result (UserPrekeys × Option Bundle × Bool)
fall_back up none = err no_prekeys_available
fall_back up (some _) = ok (record up { last_resort_use = up.last_resort_use + 1 }, none, true)

-- A bundle or the last-resort signal, with the user's new entry.
unfoldable pub issue : UserPrekeys → Option ℕ → Result (UserPrekeys × Option Bundle × Bool)
unfolding take_bundle fall_back
issue up (some idx) = do
  b ← or_panic (get_elem? up.bundles idx)
  ok (take_bundle up idx, some b, false)
issue up none = fall_back up up.last_resort

-- The entry that is found, before it is written back.
pub fetch_entry : Option UserPrekeys → Result (UserPrekeys × Option Bundle × Bool)
unfolding find_free issue
fetch_entry none = err no_prekeys_published
fetch_entry (some up) = do found ← find_free up (length up.bundles) 0; issue up found

-- `now.Sub(m.QueuedAt) > ttl`
abbrev pub is_expired : ℕ → ℤ → QueuedMessage → Bool
is_expired now ttl m = ltℤ ttl (sub_ℕ now m.queued_at)

-- The inner loop of `PurgeExpired`: what is kept, in order, and how many are not.
unfoldable pub keep_fresh : ℕ → ℤ → List QueuedMessage → List QueuedMessage × ℕ
keep_fresh now ttl [] = ([], 0)
keep_fresh now ttl (m ∷ ms) =
    let (kept, purged) = keep_fresh now ttl ms in
    if is_expired now ttl m then (kept, purged + 1) else (m ∷ kept, purged)

-- An emptied queue is deleted.
abbrev pub put_kept :
    Bytes → List QueuedMessage → Map Bytes (List QueuedMessage) → Map Bytes (List QueuedMessage)
put_kept user [] rest = rest
put_kept user (m ∷ ms) rest = (user, m ∷ ms) ∷ rest

-- The loop over the map, which holds each key once; the order of its rounds does not matter.
unfoldable pub purge_queues :
    ℕ → ℤ → Map Bytes (List QueuedMessage) → Map Bytes (List QueuedMessage) × ℕ
unfolding keep_fresh
purge_queues now ttl [] = ([], 0)
purge_queues now ttl ((user, msgs) ∷ rest) =
    let (kept, n) = keep_fresh now ttl msgs in
    let (others, purged) = purge_queues now ttl rest in (put_kept user kept others, n + purged)

-- A missing key reads as the nil slice.
abbrev pub or_empty : Option (List QueuedMessage) → List QueuedMessage
or_empty none = []
or_empty (some ms) = ms

module _ (c : Crypto) where
  unfoldable pub new_server : Server c
  new_server = record { identities = []; prekeys = []; queues = [] }

  unfoldable pub publish_identity : Server c → Bytes → PublicKey c → Server c
  unfolding insert Bytes_discrete
  publish_identity s user p = record s { identities = insert Bytes_discrete user p s.identities }

  unfoldable pub fetch_identity : Server c → Bytes → Result (PublicKey c)
  unfolding lookup Bytes_discrete
  fetch_identity s user = elim (lookup Bytes_discrete user s.identities) [
    | none ↦ err unknown_user
    | some p ↦ ok p
  ]

  unfoldable pub publish_prekeys : Server c → Bytes → List Bundle → Option LastResort → Server c
  unfolding insert Bytes_discrete
  publish_prekeys s user bundles last_resort = record s {
    prekeys = insert Bytes_discrete user entry s.prekeys;
  }
    where
      entry : UserPrekeys
      entry = record {
        bundles = bundles;
        consumed = replicate (length bundles) false;
        next_cursor = 0;
        last_resort = last_resort;
        last_resort_use = 0;
      }

  unfoldable pub fetch_prekey_bundle : Server c → Bytes → Server c × Result (Option Bundle × Bool)
  unfolding fetch_entry lookup insert Bytes_discrete
  fetch_prekey_bundle s user = elim (fetch_entry (lookup Bytes_discrete user s.prekeys)) [
    | ok (up, b, last) ↦
        (record s { prekeys = insert Bytes_discrete user up s.prekeys }, ok (b, last))
    | err e ↦ (s, err e)
    | panic ↦ (s, panic)
    | diverges ↦ (s, diverges)
  ]

  unfoldable pub last_resort_prekey : Server c → Bytes → Result LastResort
  unfolding lookup Bytes_discrete
  last_resort_prekey s user = elim (lookup Bytes_discrete user s.prekeys) [
    | none ↦ err no_prekeys_published
    | some up ↦ elim up.last_resort [ none ↦ err no_prekeys_available | some lr ↦ ok lr ]
  ]

  unfoldable pub prekey_telemetry : Server c → Bytes → Result Telemetry
  unfolding remaining lookup Bytes_discrete
  prekey_telemetry s user = elim (lookup Bytes_discrete user s.prekeys) [
    | none ↦ err no_prekeys_published
    | some up ↦ ok (record {
      remaining = remaining up.consumed;
      batch_size = length up.bundles;
      last_resort_uses = up.last_resort_use;
    })
  ]

  unfoldable pub queue_of : Server c → Bytes → List QueuedMessage
  unfolding lookup Bytes_discrete
  queue_of s user = or_empty (lookup Bytes_discrete user s.queues)

  unfoldable pub send_message : Server c → Bytes → Bytes → Bytes → ℕ → Server c × Result (Unit {0})
  unfolding queue_of lookup insert Bytes_discrete
  send_message s recipient sender envelope now =
      elim (lookup Bytes_discrete recipient s.identities) [
        | none ↦ (s, err unknown_user)
        | some _ ↦ (
          record s {
            queues =
                insert Bytes_discrete recipient (queue_of s recipient ++ message ∷ []) s.queues;
          },
          ok tt,
        )
      ]
    where
      message : QueuedMessage
      message = record { from = sender; envelope = envelope; queued_at = now }

  unfoldable pub poll_messages : Server c → Bytes → Server c × List QueuedMessage
  unfolding queue_of erase Bytes_discrete
  poll_messages s user = (record s { queues = erase Bytes_discrete user s.queues }, queue_of s user)

  unfoldable pub purge_expired : Server c → ℕ → ℤ → Server c × ℕ
  unfolding purge_queues
  purge_expired s now ttl =
      let (queues, purged) = purge_queues now ttl s.queues in (record s { queues = queues }, purged)
