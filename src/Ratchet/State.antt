-- ===== src/Ratchet/State.antt =====
-- crypto/ratchet/ratchet.go: the type `State` and its constructors.
use pqc_chat.Common.{
  ℕ, ◌+◌, ◌*◌, ◌%◌, ◌^◌, ◌≡◌, ap, ap₂, Bool, false, not, ◌||◌, [], Option, none, some, Bytes,
  Bytes_discrete, ℕ_discrete,
}
use pqc_chat.Common.Int.{ℤ, pos, ltℤ, sub_ℕ}
use pqc_chat.Common.Map.{Map}
use pqc_chat.Result.{Result, ok, ◌>>=◌}
use pqc_chat.Crypto.{Crypto}
use pqc_chat.Ratchet.Kdf.{root_kdf}

-- `skippedKey`: a ratchet key's bytes, and a message number.
abbrev pub SkippedKey : Type 0
SkippedKey = Bytes × ℕ

unfoldable pub SkippedKey_discrete : Discrete SkippedKey
unfolding Bytes_discrete ℕ_discrete
SkippedKey_discrete (a, m) (b, n) = join (Bytes_discrete a b) (ℕ_discrete m n)
  where
    join : Dec (a ≡ b) → Dec (m ≡ n) → Dec (◌≡◌ {A = SkippedKey} (a, m) (b, n))
    join (yes p) (yes q) = yes (ap₂ (λ x y. (x, y)) p q)
    join (yes p) (no q) = no (λ e. q (ap (λ k. k.1) e))
    join (no p) _ = no (λ e. p (ap (λ k. k.0) e))

abbrev pub max_skip : ℕ
max_skip = 1000

abbrev pub default_message_threshold : ℤ
default_message_threshold = pos 50

-- 24 hours, in nanoseconds
abbrev pub default_time_threshold : ℤ
default_time_threshold = pos (24 * 3600 * 10 ^ 9)

-- A nil pointer is `none`, and so is the nil receiving chain, for which the code tests.
pub record State (c : Crypto) : Type 0 where
  pub root_key : Bytes
  pub dh_self : Option c.DhPrivate
  pub dh_remote : Option c.DhPublic
  pub chain_send : Bytes
  pub chain_recv : Option Bytes
  pub n_send : ℕ
  pub n_recv : ℕ
  pub pn : ℕ
  pub needs_new_sending_chain : Bool
  pub skipped : Map SkippedKey Bytes
  pub message_threshold : ℤ
  pub time_threshold : ℤ
  pub msgs_since_inject : ℕ
  pub last_inject : ℕ
  pub self_pending_kem_priv : Option c.KemPrivate
  pub peer_advertised_kem_pub : Option c.KemPublic

-- `n++` of a uint32
abbrev pub increment : ℕ → ℕ
increment n = (n + 1) % 2 ^ 32

module _ (c : Crypto) where
  unfoldable pub new_state : Bytes → ℕ → State c
  new_state root_key now = record {
    root_key = root_key;
    dh_self = none;
    dh_remote = none;
    chain_send = [];
    chain_recv = none;
    n_send = 0;
    n_recv = 0;
    pn = 0;
    needs_new_sending_chain = false;
    skipped = [];
    message_threshold = default_message_threshold;
    time_threshold = default_time_threshold;
    msgs_since_inject = 0;
    last_inject = now;
    self_pending_kem_priv = none;
    peer_advertised_kem_pub = none;
  }

  unfoldable pub init_alice : Bytes → c.DhPublic → c.Entropy → ℕ → Result (State c)
  unfolding new_state root_kdf
  init_alice session_key bob e now = do
    dh_self ← c.dh_generate e
    dh_out ← c.dh dh_self bob
    (root_key, chain_send) ← root_kdf c session_key dh_out []
    ok (record (new_state session_key now) {
      dh_self = some dh_self;
      dh_remote = some bob;
      root_key = root_key;
      chain_send = chain_send;
    })

  unfoldable pub init_bob : Bytes → c.DhPrivate → ℕ → State c
  unfolding new_state
  init_bob session_key bob now = record (new_state session_key now) { dh_self = some bob }

  -- `>=` is the negation of `<`.
  unfoldable pub injection_due : State c → ℕ → Bool
  injection_due s now =
      not (ltℤ (pos s.msgs_since_inject) s.message_threshold)
      || not (ltℤ (sub_ℕ now s.last_inject) s.time_threshold)
