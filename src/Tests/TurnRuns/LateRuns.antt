-- ===== src/Tests/TurnRuns/LateRuns.antt =====
-- A message that is overtaken by an answer: Alice's second message arrives after Bob has answered.
use pqc_chat.Common.{some, ◌+◌, none, ◌≡◌, refl, [], ◌∷◌, All, arith}
use pqc_chat.Result.{ok}
use pqc_chat.Ratchet.State.{State, init_bob}
use pqc_chat.Ratchet.Sending.{associated_data_with_header, encrypt_message}
use pqc_chat.Ratchet.Receiving.{decrypt_message}
use pqc_chat.Ratchet.Turn.{Unseen}
use pqc_chat.Ratchet.Late.{Parcel}
use pqc_chat.Ratchet.Letters.{Conversation, posted, answered}
use pqc_chat.Ratchet.Skipping.{moved}
use pqc_chat.Ratchet.Beside.{encrypt_message-moved}
use pqc_chat.Ratchet.Kdf.{message_key, next_chain_key, aead_seal, aead_open}
use pqc_chat.Ratchet.Replayed.{replayed}
use pqc_chat.Ratchet.Crossing.{crossing}
use pqc_chat.Ratchet.Conversation.{any_order}
use pqc_chat.Tests.Toy.{toy, toy-AeadLaws, toy-DhLaws, toy-KemLaws}
use pqc_chat.Tests.RatchetRuns.{draws}
use pqc_chat.Tests.TurnRuns.{
  late, alice, bob, first, second, Message, said, contact, second_sent, one_sent, new_key,
}

abbrev parcel : Parcel toy
parcel = record { header = second.1; ciphertext = second.2; ad = []; plaintext = 8 ∷ [] }

on_the_way : Conversation toy second.0 bob (parcel ∷ []) []
on_the_way =
    posted first.0 bob [] [] draws second.0 parcel contact (omega (arith, one_sent))
      (omega (arith, one_sent)) second_sent

abbrev third : Message
unfolding encrypt_message second
third = said (encrypt_message toy draws (3 ∷ []) [] second.0)

third_sent : encrypt_message toy draws (3 ∷ []) [] second.0 ≡ (third.0, ok (third.1, third.2))
unfolding encrypt_message alice second third
third_sent = refl

two_sent : second.0.n_send ≡ 2
unfolding encrypt_message alice second
two_sent = refl

abbrev parcel2 : Parcel toy
parcel2 = record { header = third.1; ciphertext = third.2; ad = []; plaintext = 3 ∷ [] }

both_on_the_way : Conversation toy third.0 bob (parcel2 ∷ parcel ∷ []) []
both_on_the_way =
    posted second.0 bob (parcel ∷ []) [] draws third.0 parcel2 on_the_way (omega (arith, two_sent))
      (omega (arith, two_sent)) third_sent

abbrev reply : Message
unfolding encrypt_message bob
reply = said (encrypt_message toy late (9 ∷ []) [] bob)

reply_sent : encrypt_message toy late (9 ∷ []) [] bob ≡ (reply.0, ok (reply.1, reply.2))
unfolding encrypt_message alice bob reply init_bob decrypt_message
reply_sent = refl

reply_new : Unseen toy third.0 reply.1.dh_pub
unfolding encrypt_message alice bob reply init_bob decrypt_message second third
reply_new = new_key third.0 20 4 refl refl (omega arith) reply.1.dh_pub refl

overtaken_by_answer :
    Conversation toy reply.0
      (decrypt_message toy reply.1 reply.2 [] third.0).0
      []
      (parcel2 ∷ parcel ∷ [])
overtaken_by_answer =
    answered third.0 bob (parcel2 ∷ parcel ∷ []) [] late (9 ∷ []) [] reply.0 reply.1 reply.2
      both_on_the_way reply_sent reply_new

any_order_example :
    All {A = Parcel toy}
      (λ p.
        (decrypt_message toy p.header p.ciphertext p.ad
          (decrypt_message toy reply.1 reply.2 [] third.0).0).1
        ≡ ok p.plaintext)
      []
    × All {A = Parcel toy}
        (λ q. (decrypt_message toy q.header q.ciphertext q.ad reply.0).1 ≡ ok q.plaintext)
        (parcel2 ∷ parcel ∷ [])
any_order_example =
    any_order toy toy-AeadLaws toy-DhLaws toy-KemLaws reply.0
      (decrypt_message toy reply.1 reply.2 [] third.0).0 [] (parcel2 ∷ parcel ∷ [])
      overtaken_by_answer

reply_new_to_first : Unseen toy first.0 reply.1.dh_pub
unfolding encrypt_message alice bob reply init_bob decrypt_message
reply_new_to_first = new_key first.0 20 4 refl refl (omega arith) reply.1.dh_pub refl

crossing_example :
    ((decrypt_message toy second.1 second.2 [] reply.0).1 ≡ ok (8 ∷ []))
    × ((decrypt_message toy reply.1 reply.2 [] second.0).1 ≡ ok (9 ∷ []))
    × Conversation toy
        (decrypt_message toy second.1 second.2 [] reply.0).0
        (decrypt_message toy reply.1 reply.2 [] second.0).0
        []
        []
crossing_example =
    crossing toy toy-AeadLaws toy-DhLaws toy-KemLaws first.0 bob [] [] draws late (8 ∷ []) []
      (9 ∷ []) [] second.0 reply.0 second.1 reply.1 second.2 reply.2 contact
      (omega (arith, one_sent)) second_sent reply_sent reply_new_to_first

-- Bob's answer, with a receiving chain that has no key.
encrypt_message-moved_example : encrypt_message toy late (9 ∷ []) [] (moved toy bob none 3 []) ≡ (
  moved toy (encrypt_message toy late (9 ∷ []) [] bob).0 none 3 [],
  (encrypt_message toy late (9 ∷ []) [] bob).1,
)
encrypt_message-moved_example = encrypt_message-moved toy none 3 [] late (9 ∷ []) [] bob

-- Alice's second message arrives, and its header again with other bytes; then her third arrives.
abbrev bob_again : State toy
bob_again =
    (decrypt_message toy second.1 (5 ∷ []) [] (decrypt_message toy second.1 second.2 [] bob).0).0

replayed_example :
    ((decrypt_message toy second.1 second.2 [] bob).1 ≡ ok (8 ∷ []))
    × (bob_again.chain_recv ≡ some (next_chain_key toy second.0.chain_send))
    × (bob_again.n_recv ≡ second.0.n_send + 1)
    × (aead_seal toy
          (message_key toy second.0.chain_send)
          (3 ∷ [])
          (associated_data_with_header third.1 [])
        ≡ ok third.2)
    × ((decrypt_message toy third.1 third.2 [] bob_again).1
        ≡ aead_open toy
            (message_key toy (next_chain_key toy second.0.chain_send))
            third.2
            (associated_data_with_header third.1 []))
replayed_example =
    replayed toy toy-AeadLaws toy-DhLaws toy-KemLaws first.0 bob [] [] draws draws (8 ∷ []) (3 ∷ [])
      [] [] second.0 third.0 second.1 third.1 second.2 third.2 (5 ∷ []) [] contact
      (omega (arith, one_sent)) second_sent third_sent
