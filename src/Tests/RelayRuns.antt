-- ===== src/Tests/RelayRuns.antt =====
-- relay/relay.go on small servers.
use pqc_chat.Common.{
  ℕ, ◌+◌, ◌≡◌, ◌≢◌, refl, subst, true, false, List, [], ◌∷◌, none, some, Bytes, Bytes_discrete,
  get_elem?,
}
use pqc_chat.Common.Int.{pos}
use pqc_chat.Common.Map.{lookup}
use pqc_chat.Result.{ok, err, unknown_user, no_prekeys_published, no_prekeys_available}
use pqc_chat.Identity.{PublicKey, Signature}
use pqc_chat.Prekey.{Bundle}
use pqc_chat.Relay.{
  Server, UserPrekeys, QueuedMessage, new_server, publish_identity, publish_prekeys, send_message,
  fetch_prekey_bundle, poll_messages, purge_expired, queue_of, fetch_identity, prekey_telemetry,
  last_resort_prekey,
}
use pqc_chat.Relay.Issues.{
  Op, publishes_identity, publishes_prekeys, fetches, sends, polls, step, run, entry_of, IsWellKept,
}
use pqc_chat.Relay.OneTime.{issued_once}
use pqc_chat.Relay.WellKept.{run-new_server-IsWellKept}
use pqc_chat.Relay.Expiry.{fresh, total, purge_expired_lem}
use pqc_chat.Relay.Contract.{
  replies, promised, nothing_yet, after, done, fetched, sent, polled, identity_reply,
  telemetry_reply, last_resort_reply,
}
use pqc_chat.Relay.Refines.{relay_refines}
use pqc_chat.Tests.Toy.{toy}

abbrev no_signature : Signature
no_signature = record { ed25519 = []; mldsa = [] }

abbrev bundle_of : ℕ → Bundle
bundle_of i = record {
  public_key = i ∷ [];
  index = pos i;
  batch_size = pos 2;
  proof = [];
  root = [];
  root_signature = no_signature;
}

-- The first of two bundles is consumed.
abbrev half_used : UserPrekeys
half_used = record {
  bundles = bundle_of 0 ∷ bundle_of 1 ∷ [];
  consumed = true ∷ false ∷ [];
  next_cursor = 1;
  last_resort = none;
  last_resort_use = 0;
}

abbrev bob : Bytes
bob = 2 ∷ []

abbrev alice : Bytes
alice = 1 ∷ []

abbrev bobs_key : PublicKey toy
bobs_key = record { ed25519 = 4 ∷ []; mldsa = 5 }

abbrev calls : List (Op toy)
calls =
    publishes_identity bob bobs_key
    ∷ publishes_prekeys bob (bundle_of 0 ∷ bundle_of 1 ∷ []) none
    ∷ fetches bob
    ∷ sends bob alice (9 ∷ []) 100
    ∷ []

-- Bob has published an identity and two prekeys, and one message waits for him.
abbrev server : Server toy
server = record {
  identities = (bob, bobs_key) ∷ [];
  prekeys =
      (
        bob,
        record {
          bundles = bundle_of 0 ∷ bundle_of 1 ∷ [];
          consumed = false ∷ false ∷ [];
          next_cursor = 0;
          last_resort = none;
          last_resort_use = 0;
        },
      )
      ∷ [];
  queues = (bob, record { from = alice; envelope = 8 ∷ []; queued_at = 5 } ∷ []) ∷ [];
}

abbrev server_calls : List (Op toy)
server_calls =
    publishes_identity bob bobs_key
    ∷ publishes_prekeys bob (bundle_of 0 ∷ bundle_of 1 ∷ []) none
    ∷ sends bob alice (8 ∷ []) 5
    ∷ []

server_reached : run toy (new_server toy) server_calls ≡ server
unfolding run new_server step send_message publish_prekeys publish_identity
server_reached = refl

server-IsWellKept : IsWellKept toy server
server-IsWellKept =
    subst (IsWellKept toy) server_reached (run-new_server-IsWellKept toy server_calls)

issued_first : (fetch_prekey_bundle toy server bob).1 ≡ ok (some (bundle_of 0), false)
unfolding fetch_prekey_bundle
issued_first = refl

issued_second :
    (fetch_prekey_bundle toy
      (run toy (fetch_prekey_bundle toy server bob).0 (polls bob ∷ fetches alice ∷ []))
      bob).1
    ≡ ok (some (bundle_of 1), false)
unfolding fetch_prekey_bundle run step poll_messages
issued_second = refl

issued_once_example :
    (up : UserPrekeys) × (i : ℕ) × (j : ℕ) × (entry_of toy server bob ≡ some up)
    × (get_elem? up.bundles i ≡ some (bundle_of 0))
    × (get_elem? up.bundles j ≡ some (bundle_of 1))
    × (i ≢ j)
issued_once_example =
    issued_once toy server bob (polls bob ∷ fetches alice ∷ []) (bundle_of 0) (bundle_of 1)
      server-IsWellKept tt issued_first issued_second

abbrev more_calls : List (Op toy)
more_calls = sends bob alice (7 ∷ []) 20 ∷ fetches bob ∷ sends bob alice (6 ∷ []) 30 ∷ []

bob_known : lookup Bytes_discrete bob server.identities ≡ some bobs_key
unfolding lookup Bytes_discrete
bob_known = refl

-- The polled messages of the example, in full.
polled_in_full :
    (poll_messages toy (run toy server more_calls) bob).1
    ≡ record { from = alice; envelope = 8 ∷ []; queued_at = 5 }
      ∷ record { from = alice; envelope = 7 ∷ []; queued_at = 20 }
      ∷ record { from = alice; envelope = 6 ∷ []; queued_at = 30 }
      ∷ []
unfolding poll_messages run step send_message fetch_prekey_bundle
polled_in_full = refl

no_other : lookup {K = Bytes} {V = List QueuedMessage} Bytes_discrete bob [] ≡ none
unfolding lookup
no_other = refl

purge_expired_lem_example :
    ((user : Bytes)
      → queue_of toy (purge_expired toy server 20 (pos 10)).0 user
        ≡ fresh 20 (pos 10) (queue_of toy server user))
    × (total (purge_expired toy server 20 (pos 10)).0.queues
          + (purge_expired toy server 20 (pos 10)).1
        ≡ total server.queues)
purge_expired_lem_example = purge_expired_lem toy server 20 (pos 10) (no_other, tt)

-- A history with every call: one bundle and a last-resort prekey, three fetches, and an early poll.
abbrev history : List (Op toy)
history =
    publishes_prekeys bob (bundle_of 0 ∷ []) none
    ∷ fetches bob
    ∷ fetches bob
    ∷ fetches alice
    ∷ sends bob alice (7 ∷ []) 20
    ∷ publishes_identity bob bobs_key
    ∷ sends bob alice (6 ∷ []) 30
    ∷ polls bob
    ∷ polls bob
    ∷ []

relay_refines_example :
    (replies toy (new_server toy) history ≡ promised toy (nothing_yet toy) history)
    × ((user : Bytes)
        → (fetch_identity toy (run toy (new_server toy) history) user
            ≡ identity_reply toy ((after toy (nothing_yet toy) history).identity user))
          × (prekey_telemetry toy (run toy (new_server toy) history) user
              ≡ telemetry_reply toy ((after toy (nothing_yet toy) history).pool user))
          × (last_resort_prekey toy (run toy (new_server toy) history) user
              ≡ last_resort_reply toy ((after toy (nothing_yet toy) history).pool user)))
relay_refines_example = relay_refines toy history

-- Its replies, in full.
promises :
    promised toy (nothing_yet toy) history
    ≡ done
      ∷ fetched (ok (some (bundle_of 0), false))
      ∷ fetched (err no_prekeys_available)
      ∷ fetched (err no_prekeys_published)
      ∷ sent (err unknown_user)
      ∷ done
      ∷ sent (ok tt)
      ∷ polled (record { from = alice; envelope = 6 ∷ []; queued_at = 30 } ∷ [])
      ∷ polled []
      ∷ []
unfolding Bytes_discrete
promises = refl
