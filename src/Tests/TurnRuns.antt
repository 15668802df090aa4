-- ===== src/Tests/TurnRuns.antt =====
-- Two parties that take turns: Alice starts, Bob answers with an injection, Alice owes the answer to it.
mod LateRuns
use pqc_chat.Common.{
  ℕ, ◌*◌, ◌^◌, ◌≡◌, ◌≢◌, refl, ap, sym, ◌∙◌, subst, replicate, length, true, [], ◌∷◌, none, some,
  Option, Bytes, arith,
}
use pqc_chat.Common.Map.{lookup}
use pqc_chat.Result.{Result, ok, panic}
use pqc_chat.Ratchet.Header.{Header}
use pqc_chat.Ratchet.Kdf.{root_kdf}
use pqc_chat.Ratchet.State.{State, SkippedKey_discrete, new_state, init_alice, init_bob}
use pqc_chat.Ratchet.Sending.{Draws, encrypt_message}
use pqc_chat.Ratchet.Receiving.{decrypt_message}
use pqc_chat.Ratchet.Entering.{publics, keyed}
use pqc_chat.Ratchet.Turn.{Unseen}
use pqc_chat.Ratchet.Letters.{Conversation, begun, answered}
use pqc_chat.Ratchet.Conversation.{next_message, next_answer, shared_root}
use pqc_chat.Ratchet.Misuse.{decrypt_message-panics}
use pqc_chat.Ratchet.Overtaken.{overtaken}
use pqc_chat.Tests.Toy.{
  toy, toy-AeadLaws, toy-DhLaws, toy-KemLaws, toy-KdfLaws, value_or, pad, first_of,
}
use pqc_chat.Tests.RatchetRuns.{draws}

-- A day later, so that an injection is due.
abbrev pub late : Draws toy
late = record {
  dh = 20;
  encapsulation = 21;
  kem = 22;
  checked_at = 24 * 3600 * 10 ^ 9;
  injected_at = 30;
}

abbrev third : Draws toy
third = record late { dh = 40; encapsulation = 41; checked_at = 50 }

abbrev pub alice : State toy
unfolding new_state
alice = record (new_state toy (pad 8) 0) {
  dh_self = some 1;
  dh_remote = some 4;
  root_key = (value_or ([], []) (root_kdf toy (pad 8) (pad 5) [])).0;
  chain_send = (value_or ([], []) (root_kdf toy (pad 8) (pad 5) [])).1;
}

alice_starts : init_alice toy (pad 8) 4 1 0 ≡ ok alice
unfolding init_alice root_kdf new_state alice
alice_starts = refl

abbrev some_or : ℕ → Option ℕ → ℕ
some_or d none = d
some_or d (some x) = x

abbrev nothing : Header
nothing = record { dh_pub = []; pn = 0; n = 0; mlkem_pub = none; mlkem_ciphertext = none }

-- One message, with its state.
abbrev pub Message : Type 0
Message = State toy × Header × Bytes

abbrev pub said : State toy × Result (Header × Bytes) → Message
said (s, r) = (s, (value_or (nothing, []) r).0, (value_or (nothing, []) r).1)

abbrev pub first : Message
first = said (encrypt_message toy draws (7 ∷ []) [] alice)

first_sent : encrypt_message toy draws (7 ∷ []) [] alice ≡ (first.0, ok (first.1, first.2))
unfolding encrypt_message alice
first_sent = refl

abbrev pub bob : State toy
unfolding init_bob decrypt_message
bob = (decrypt_message toy first.1 first.2 [] (init_bob toy (pad 8) 4 0)).0

pub contact : Conversation toy first.0 bob [] []
unfolding bob
contact =
    begun (pad 8) 4 1 0 0 draws (7 ∷ []) [] alice first.0 first.1 first.2 alice_starts first_sent

abbrev pub second : Message
unfolding encrypt_message
second = said (encrypt_message toy draws (8 ∷ []) [] first.0)

pub second_sent :
    encrypt_message toy draws (8 ∷ []) [] first.0 ≡ (second.0, ok (second.1, second.2))
unfolding encrypt_message alice second
second_sent = refl

pub one_sent : first.0.n_send ≡ 1
unfolding encrypt_message alice
one_sent = refl

next_message_example : (decrypt_message toy second.1 second.2 [] bob).1 ≡ ok (8 ∷ [])
next_message_example =
    next_message toy toy-AeadLaws toy-DhLaws toy-KemLaws first.0 bob [] [] draws (8 ∷ []) []
      second.0 second.1 second.2 contact (omega (arith, one_sent)) second_sent

-- The first byte tells ratchet keys apart.
pad_injective : (x y : ℕ) → pad x ≡ pad y → x ≡ y
pad_injective x y e = ap (λ b. value_or 0 (first_of b)) e

-- A state whose remote key starts with another byte, and which stores no keys.
pub new_key :
    (s : State toy) (x y : ℕ)
    → s.dh_remote ≡ some y
    → s.skipped ≡ []
    → x ≢ y
    → (b : Bytes) → b ≡ pad x
    → Unseen toy s b
unfolding lookup
new_key s x y remote empty apart b named = record {
  other = λ p known same.
      apart
        (pad_injective x y (sym named ∙ same ∙ ap (λ o. pad (some_or 0 o)) (sym known ∙ remote)));
  unstored = λ n. ap (λ m. lookup SkippedKey_discrete (b, n) m) empty;
}

abbrev reply : Message
unfolding encrypt_message bob
reply = said (encrypt_message toy late (9 ∷ []) [] bob)

reply_sent : encrypt_message toy late (9 ∷ []) [] bob ≡ (reply.0, ok (reply.1, reply.2))
unfolding encrypt_message alice bob reply init_bob decrypt_message
reply_sent = refl

reply_new : Unseen toy first.0 reply.1.dh_pub
unfolding encrypt_message alice bob reply init_bob decrypt_message
reply_new = new_key first.0 20 4 refl refl (omega arith) reply.1.dh_pub refl

next_answer_example : (decrypt_message toy reply.1 reply.2 [] first.0).1 ≡ ok (9 ∷ [])
next_answer_example =
    next_answer toy toy-AeadLaws toy-DhLaws toy-KemLaws first.0 bob [] [] late (9 ∷ []) [] reply.0
      reply.1 reply.2 contact reply_new reply_sent

-- Bob's answer was due an injection, so that Alice owes an answer to it.
abbrev alice_owes : State toy
unfolding decrypt_message reply
alice_owes = (decrypt_message toy reply.1 reply.2 [] first.0).0

exchange : Conversation toy reply.0 alice_owes [] []
unfolding alice_owes
exchange =
    answered first.0 bob [] [] late (9 ∷ []) [] reply.0 reply.1 reply.2 contact reply_sent reply_new

shared_root_example :
    (reply.0.root_key ≡ alice_owes.root_key)
    × (alice_owes.needs_new_sending_chain ≡ true)
    × (alice_owes.self_pending_kem_priv ≡ none)
    × (reply.0.peer_advertised_kem_pub ≡ none)
    × (alice_owes.peer_advertised_kem_pub ≡ publics toy reply.0.self_pending_kem_priv)
shared_root_example =
    shared_root toy toy-AeadLaws toy-DhLaws toy-KemLaws reply.0 alice_owes [] [] exchange

-- The states of the two, written out.
abbrev bob_waits : State toy
unfolding new_state
bob_waits = record (new_state toy (replicate 32 181) 30) {
  dh_self = some 20;
  dh_remote = some 1;
  chain_send = pad 162;
  chain_recv = some (pad 162);
  n_send = 1;
  n_recv = 1;
  msgs_since_inject = 1;
  self_pending_kem_priv = some 22;
}

abbrev alice_turns : State toy
unfolding new_state
alice_turns = record (new_state toy (replicate 32 181) 0) {
  dh_self = some 1;
  dh_remote = some 20;
  chain_send = pad 162;
  chain_recv = some (pad 162);
  n_send = 1;
  n_recv = 1;
  msgs_since_inject = 1;
  needs_new_sending_chain = true;
  peer_advertised_kem_pub = some 22;
}

bob-eq : reply.0 ≡ bob_waits
unfolding encrypt_message alice bob reply init_bob decrypt_message bob_waits
bob-eq = refl

alice-eq : alice_owes ≡ alice_turns
unfolding encrypt_message alice bob reply init_bob decrypt_message alice_owes alice_turns
alice-eq = refl

exchanged : Conversation toy bob_waits alice_turns [] []
exchanged =
    subst (λ a. Conversation toy bob_waits a [] []) alice-eq
      (subst (λ b. Conversation toy b alice_owes [] []) bob-eq exchange)

abbrev next : Message
unfolding encrypt_message alice_turns
next = said (encrypt_message toy third (10 ∷ []) [] alice_turns)

abbrev last : Message
unfolding encrypt_message next
last = said (encrypt_message toy draws (11 ∷ []) [] next.0)

next_sent : encrypt_message toy third (10 ∷ []) [] alice_turns ≡ (next.0, ok (next.1, next.2))
unfolding encrypt_message alice_turns next
next_sent = refl

last_sent : encrypt_message toy draws (11 ∷ []) [] next.0 ≡ (last.0, ok (last.1, last.2))
unfolding encrypt_message alice_turns next last
last_sent = refl

last_new : Unseen toy bob_waits last.1.dh_pub
unfolding encrypt_message alice_turns next last bob_waits
last_new = new_key bob_waits 40 1 refl refl (omega arith) last.1.dh_pub refl

overtaken_example :
    (last.1.mlkem_ciphertext ≡ none)
    × (dh_out : Bytes) × (chain : Bytes) × (chain' : Bytes) × (root_kdf toy bob_waits.root_key
          dh_out
          (toy.kem_encapsulate 22 41).1
        ≡ ok (last.0.root_key, chain))
    × (root_kdf toy bob_waits.root_key dh_out []
        ≡ ok ((decrypt_message toy last.1 last.2 [] bob_waits).0.root_key, chain'))
unfolding alice_turns
overtaken_example =
    overtaken toy toy-AeadLaws toy-DhLaws toy-KemLaws toy-KdfLaws bob_waits alice_turns [] [] third
      draws (10 ∷ []) (11 ∷ []) [] [] next.0 last.0 next.1 last.1 next.2 last.2 22 exchanged refl
      next_sent last_sent last_new

-- A header that anyone may send to Bob while his injection is pending.
abbrev crash : Header
crash = record {
  dh_pub = pad 50;
  pn = 1;
  n = 0;
  mlkem_pub = none;
  mlkem_ciphertext = some (9 ∷ []);
}

crash_new : pad 50 ≢ pad 1
crash_new e = absurd (omega (arith, pad_injective 50 1 e))

crash_size : length {A = ℕ} (9 ∷ []) ≢ 2
crash_size e = absurd (omega (arith, e))

no_key_of_crash : lookup SkippedKey_discrete (crash.dh_pub, crash.n) bob_waits.skipped ≡ none
unfolding lookup bob_waits
no_key_of_crash = refl

decrypt_message-panics_example : (decrypt_message toy crash (7 ∷ []) [] bob_waits).1 ≡ panic
unfolding bob_waits
decrypt_message-panics_example =
    decrypt_message-panics toy toy-KemLaws bob_waits 1 50 crash 22 (9 ∷ []) (7 ∷ []) [] refl
      crash_new (keyed (pad 162) 0 refl (omega arith) (omega arith) (omega arith)) refl refl refl
      crash_size no_key_of_crash
