-- ===== src/Tests/LogRuns.antt =====
-- translog on a log of one entry.
use pqc_chat.Common.{
  inl, inr, bytes_equal, arith, ◌≢◌, All, ◌^◌, ◌≡◌, refl, ◌↔◌, true, false, List, [], ◌∷◌, ◌++◌,
  some, Bytes, be32, be64, get_elem?,
}
use pqc_chat.Common.Int.{pos, ltℤ}
use pqc_chat.Result.{ok}
use pqc_chat.Identity
use pqc_chat.Identity.{KeyPair, PublicKey, Signature}
use pqc_chat.Merkle.{build_tree, root}
use pqc_chat.Translog.{
  Entry, SignedTreeHead, new_server, append, publish_sth, verify_sth, leaf_data, prove_inclusion,
  verify_inclusion, latest_entry_for_user,
}
use pqc_chat.Translog.Log.{Op, appends, publishes, step, run}
use pqc_chat.Translog.Sound.{IsSound, run-new_server-IsSound}
use pqc_chat.Translog.Inclusion.{verify_inclusion-prove}
use pqc_chat.Translog.View.{
  Evidence, ClientView, new_client_view, observe, heads, gossip_with, verify_evidence,
}
use pqc_chat.Translog.Detection.{IsView, Extends, seen_at, observe_sound, new_client_view-IsView}
use pqc_chat.Translog.Latest.{last_of, latest_entry_for_user-last_of}
use pqc_chat.Translog.Returns.{IsOnce}
use pqc_chat.Common.Map.{lookup}
use pqc_chat.Translog.Exchange.{gossip_with_detects}
use pqc_chat.Translog.Gossip.{Equivocates, verify_evidence_iff}
use pqc_chat.Translog.Heads.{published, IsAmong, published_agree}
use pqc_chat.Translog.Honest.{viewed, never_accused}
use pqc_chat.Translog.Calm.{replies, IsCalm, Knows}
use pqc_chat.Tests.Toy.{toy, toy-SignLaws, toy-DsaKeyLaws, pad}

abbrev operator : KeyPair toy
operator = record {
  ed25519_public = 4 ∷ [];
  ed25519_private = 4 ∷ [];
  mldsa_public = 5;
  mldsa_private = 5;
}

abbrev operator_key : PublicKey toy
operator_key = record { ed25519 = 4 ∷ []; mldsa = 5 }

abbrev calls : List (Op toy)
calls = appends (2 ∷ []) operator_key 6 ∷ publishes 7 0 ∷ []

run-new_server-IsSound_example : IsSound toy (run toy (new_server toy operator) calls)
run-new_server-IsSound_example = run-new_server-IsSound toy operator calls

sound : IsSound toy (run toy (new_server toy operator) calls)
sound = run-new_server-IsSound toy operator calls

-- The head that the call publishes.
abbrev head : SignedTreeHead toy
unfolding be32 be64
head = record {
  tree_size = pos 1;
  root_hash = pad 12;
  timestamp = 7;
  operator_identity = operator_key;
  signature = record {
    ed25519 = 4 ∷ (be32 1 ++ (pad 12 ++ be64 7));
    mldsa = 5 ∷ (be32 1 ++ (pad 12 ++ be64 7));
  };
}

head_published : (run toy (new_server toy operator) calls).current_sth ≡ some head
unfolding run step new_server append publish_sth head build_tree root be32 be64 leaf_data
    Identity.marshal Identity.sign Identity.public
head_published = refl

head_covers : ltℤ (pos 0) head.tree_size ≡ true
unfolding head
head_covers = refl

head_small : ltℤ (pos (2 ^ 62)) head.tree_size ≡ false
unfolding head
head_small = refl

verify_inclusion-prove_example :
    (e : Entry toy) × (path : List Bytes) × (get_elem?
        (run toy (new_server toy operator) calls).entries
        0
      ≡ some e)
    × (prove_inclusion toy (run toy (new_server toy operator) calls) (pos 0) ≡ ok (e, path, head))
    × (verify_inclusion toy head e path ≡ ok tt)
verify_inclusion-prove_example =
    verify_inclusion-prove toy (run toy (new_server toy operator) calls) head 0 sound head_published
      head_covers head_small

-- Another root of the same size, signed by the same operator.
abbrev forged : SignedTreeHead toy
unfolding be32 be64
forged = record {
  tree_size = pos 1;
  root_hash = pad 13;
  timestamp = 7;
  operator_identity = operator_key;
  signature = record {
    ed25519 = 4 ∷ (be32 1 ++ (pad 13 ++ be64 7));
    mldsa = 5 ∷ (be32 1 ++ (pad 13 ++ be64 7));
  };
}

abbrev evidence : Evidence toy
evidence = record { a = head; b = forged }

verify_evidence_iff_example :
    (verify_evidence toy evidence operator_key ≡ ok tt) ↔ Equivocates toy evidence operator_key
verify_evidence_iff_example = verify_evidence_iff toy toy-DsaKeyLaws evidence operator_key

evidence_accepted : verify_evidence toy evidence operator_key ≡ ok tt
unfolding verify_evidence head forged be32 be64 verify_sth Identity.verify Identity.equal
evidence_accepted = refl

-- What a client remembers that has seen one head.
abbrev viewing : SignedTreeHead toy → ClientView toy
unfolding observe new_client_view
viewing sth = (observe toy (new_client_view toy operator_key) sth).0

viewing-IsView : (sth : SignedTreeHead toy) → IsView toy toy-DsaKeyLaws (viewing sth)
unfolding viewing
viewing-IsView sth =
    (observe_sound toy toy-DsaKeyLaws (new_client_view toy operator_key) sth
      (new_client_view-IsView toy toy-DsaKeyLaws operator_key)).0.view

observe_sound_example :
    Extends toy toy-DsaKeyLaws (viewing head) (observe toy (viewing head) forged).0
    × ((ev : Evidence toy)
        → (observe toy (viewing head) forged).1 ≡ ok (some ev)
        → Equivocates toy ev (viewing head).operator_identity)
observe_sound_example = observe_sound toy toy-DsaKeyLaws (viewing head) forged (viewing-IsView head)

head_seen : seen_at toy toy-DsaKeyLaws (viewing head) (pos 1) ≡ some head
unfolding viewing head observe Identity.equal verify_sth Identity.verify
head_seen = refl

forged_seen : seen_at toy toy-DsaKeyLaws (viewing forged) (pos 1) ≡ some forged
unfolding viewing forged observe Identity.equal verify_sth Identity.verify
forged_seen = refl

one_operator : (viewing head).operator_identity ≡ (viewing forged).operator_identity
unfolding viewing head forged observe verify_sth Identity.verify bytes_equal Identity.equal
one_operator = refl

roots_differ : head.root_hash ≢ forged.root_hash
unfolding head forged
roots_differ e = ground arith

head-IsOnce : IsOnce toy toy-DsaKeyLaws (viewing head).seen
unfolding viewing head observe Identity.equal verify_sth Identity.verify lookup
head-IsOnce = (refl, tt)

forged-IsOnce : IsOnce toy toy-DsaKeyLaws (viewing forged).seen
unfolding viewing forged observe Identity.equal verify_sth Identity.verify lookup
forged-IsOnce = (refl, tt)

gossip_with_detects_example :
    ((evs : List (Evidence toy)) × ((gossip_with toy (viewing head) (viewing forged)).0.1 ≡ ok evs)
      × (evs ≢ [])
      × All (λ ev. Equivocates toy ev (viewing head).operator_identity) evs)
    × ((evs : List (Evidence toy)) × ((gossip_with toy (viewing head) (viewing forged)).1.1
          ≡ ok evs)
        × (evs ≢ [])
        × All (λ ev. Equivocates toy ev (viewing forged).operator_identity) evs)
gossip_with_detects_example =
    gossip_with_detects toy toy-DsaKeyLaws (viewing head) (viewing forged) (pos 1) head forged
      (viewing-IsView head) (viewing-IsView forged) head-IsOnce forged-IsOnce one_operator head_seen
      forged_seen roots_differ

-- A history with two publications of one size, at two times.
abbrev history : List (Op toy)
history = appends (2 ∷ []) operator_key 6 ∷ publishes 7 0 ∷ publishes 8 0 ∷ []

abbrev later_head : SignedTreeHead toy
unfolding be32 be64
later_head = record {
  tree_size = pos 1;
  root_hash = pad 12;
  timestamp = 8;
  operator_identity = operator_key;
  signature = record {
    ed25519 = 4 ∷ (be32 1 ++ (pad 12 ++ be64 8));
    mldsa = 5 ∷ (be32 1 ++ (pad 12 ++ be64 8));
  };
}

both_published : published toy (new_server toy operator) history ≡ head ∷ later_head ∷ []
unfolding step new_server append publish_sth head later_head build_tree root be32 be64 leaf_data
    Identity.marshal Identity.sign Identity.public
both_published = refl

first-IsAmong : IsAmong toy head (published toy (new_server toy operator) history)
first-IsAmong = rw both_published (inl refl)

later-IsAmong : IsAmong toy later_head (published toy (new_server toy operator) history)
later-IsAmong = rw both_published (inr (inl refl))

one_size : head.tree_size ≡ later_head.tree_size
unfolding head later_head
one_size = refl

published_agree_example : head.root_hash ≡ later_head.root_hash
published_agree_example =
    published_agree toy operator history head later_head first-IsAmong later-IsAmong one_size

operator_generated : Identity.generate toy 4 5 ≡ ok operator
unfolding Identity.generate
operator_generated = refl

abbrev one_client : ClientView toy
one_client = viewed toy toy-SignLaws toy-DsaKeyLaws operator (head ∷ later_head ∷ [])

abbrev other_client : ClientView toy
other_client = viewed toy toy-SignLaws toy-DsaKeyLaws operator (later_head ∷ [])

never_accused_example :
    IsCalm toy toy-SignLaws toy-DsaKeyLaws (
      replies toy toy-SignLaws toy-DsaKeyLaws
        (new_client_view toy (Identity.public toy operator))
        (head ∷ later_head ∷ []))
    × All (Knows toy toy-SignLaws toy-DsaKeyLaws one_client) (head ∷ later_head ∷ [])
    × IsCalm toy toy-SignLaws toy-DsaKeyLaws (
        replies toy toy-SignLaws toy-DsaKeyLaws
          (new_client_view toy (Identity.public toy operator))
          (later_head ∷ []))
    × All (Knows toy toy-SignLaws toy-DsaKeyLaws other_client) (later_head ∷ [])
    × IsCalm toy toy-SignLaws toy-DsaKeyLaws
        (replies toy toy-SignLaws toy-DsaKeyLaws one_client (heads toy other_client.seen))
    × IsCalm toy toy-SignLaws toy-DsaKeyLaws
        (replies toy toy-SignLaws toy-DsaKeyLaws other_client (heads toy one_client.seen))
    × ((gossip_with toy one_client other_client).0.1 ≡ ok [])
    × ((gossip_with toy one_client other_client).1.1 ≡ ok [])
never_accused_example =
    never_accused toy toy-SignLaws toy-DsaKeyLaws 4 5 operator history (head ∷ later_head ∷ [])
      (later_head ∷ []) operator_generated (first-IsAmong, (later-IsAmong, tt)) (later-IsAmong, tt)

abbrev two_users : List (Op toy)
two_users =
    appends (2 ∷ []) operator_key 6
    ∷ appends (3 ∷ []) operator_key 7
    ∷ appends (2 ∷ []) operator_key 8
    ∷ []

latest_entry_for_user-last_of_example :
    latest_entry_for_user toy (run toy (new_server toy operator) two_users) (2 ∷ [])
    ≡ ok (last_of toy (2 ∷ []) (run toy (new_server toy operator) two_users).entries)
latest_entry_for_user-last_of_example =
    latest_entry_for_user-last_of toy operator two_users (2 ∷ [])

second_of_user :
    latest_entry_for_user toy (run toy (new_server toy operator) two_users) (2 ∷ [])
    ≡ ok (
        some (record { index = pos 2; user_id = 2 ∷ []; public_key = operator_key; timestamp = 8 }))
unfolding latest_entry_for_user run step append new_server
second_of_user = refl
