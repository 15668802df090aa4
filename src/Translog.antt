-- ===== src/Translog.antt =====
-- translog/log.go, sth.go, client.go and simulate.go. `time.Now()` is an argument in nanoseconds, as
-- `UnixNano` counts them. Every method of the server holds its mutex throughout.
pub mod Log
pub mod Sound
pub mod Heads
pub mod Latest
pub mod Inclusion
pub mod View
pub mod Gossip
pub mod Detection
pub mod Returns
pub mod Exchange
pub mod Calm
pub mod Honest
use pqc_chat.Common.{
  ℕ, zero, suc, ◌+◌, Bool, true, false, List, [], ◌∷◌, ◌++◌, Option, none, some, Bytes,
  Bytes_discrete, length, get_elem?, take, be32, be64, ltb, if◌then◌else◌, codes,
}
use pqc_chat.Common.Int.{ℤ, pos, negsuc, to_uint32, ltℤ}
use pqc_chat.Common.Map.{Map, lookup, insert}
use pqc_chat.Result.{
  Result, ok, err, panic, diverges, ◌>>=◌, ◌>>◌, guard, or_panic, unknown_index, no_sth_published,
  invalid_log_proof,
}
use pqc_chat.Crypto.{Crypto}
use pqc_chat.Identity.{KeyPair, PublicKey, Signature, marshal, sign, verify, public, equal}
use pqc_chat.Merkle.{build_tree, root, inclusion_proof, verify_inclusion_proof}

abbrev pub merkle_domain : Bytes
merkle_domain = codes "translog"

pub record Entry (c : Crypto) : Type 0 where
  pub index : ℤ
  pub user_id : Bytes
  pub public_key : PublicKey c
  pub timestamp : ℕ

pub record SignedTreeHead (c : Crypto) : Type 0 where
  pub tree_size : ℤ
  pub root_hash : Bytes
  pub timestamp : ℕ
  pub operator_identity : PublicKey c
  pub signature : Signature

pub record Server (c : Crypto) : Type 0 where
  pub operator_id : KeyPair c
  pub entries : List (Entry c)
  pub latest_by_user : Map Bytes ℕ
  pub current_sth : Option (SignedTreeHead c)

pub data AlertLevel : Type 0 where
  alert_none alert_soft_notice alert_blocking : AlertLevel

module _ (c : Crypto) where
  unfoldable pub leaf_data : Entry c → Result Bytes
  leaf_data e = do
    packed ← marshal c e.public_key
    ok (be32 (length e.user_id) ++ (e.user_id ++ (be32 (to_uint32 e.index) ++ packed)))

  unfoldable pub new_server : KeyPair c → Server c
  new_server operator = record {
    operator_id = operator;
    entries = [];
    latest_by_user = [];
    current_sth = none;
  }

  unfoldable pub operator_identity : Server c → PublicKey c
  operator_identity s = public c s.operator_id

  unfoldable pub append : Server c → Bytes → PublicKey c → ℕ → Server c × ℕ
  unfolding insert Bytes_discrete
  append s user p now = (
    record s {
      entries = s.entries ++ entry ∷ [];
      latest_by_user = insert Bytes_discrete user (length s.entries) s.latest_by_user;
    },
    length s.entries,
  )
    where
      entry : Entry c
      entry = record {
        index = pos (length s.entries);
        user_id = user;
        public_key = p;
        timestamp = now;
      }

  unfoldable pub sth_signing_bytes : ℤ → Bytes → ℕ → Bytes
  sth_signing_bytes size r now = be32 (to_uint32 size) ++ (r ++ be64 now)

  unfoldable pub sign_tree_head : KeyPair c → ℤ → Bytes → ℕ → c.Entropy → Result (SignedTreeHead c)
  unfolding sth_signing_bytes
  sign_tree_head operator size r now e = do
    sig ← sign c operator (sth_signing_bytes size r now) e
    ok (record {
      tree_size = size;
      root_hash = r;
      timestamp = now;
      operator_identity = public c operator;
      signature = sig;
    })

  -- The loop over the entries; the first that cannot be packed ends it.
  pub leaves_of : List (Entry c) → Result (List Bytes)
  leaves_of [] = ok []
  leaves_of (e ∷ es) = do l ← leaf_data e; ls ← leaves_of es; ok (l ∷ ls)

  -- The new tree head, before it is stored.
  pub make_sth : Server c → ℕ → c.Entropy → Result (SignedTreeHead c)
  unfolding leaves_of sign_tree_head
  make_sth s now e = do
    leaves ← leaves_of s.entries
    tree ← build_tree c.sha256 merkle_domain leaves
    r ← root tree
    sign_tree_head s.operator_id (pos (length s.entries)) r now e

  unfoldable pub publish_sth : Server c → ℕ → c.Entropy → Server c × Result (SignedTreeHead c)
  unfolding make_sth
  publish_sth s now e = elim (make_sth s now e) [
    | ok sth ↦ (record s { current_sth = some sth }, ok sth)
    | err x ↦ (s, err x)
    | panic ↦ (s, panic)
    | diverges ↦ (s, diverges)
  ]

  unfoldable pub current_sth : Server c → Result (SignedTreeHead c)
  current_sth s = elim s.current_sth [ none ↦ err no_sth_published | some sth ↦ ok sth ]

  unfoldable pub entry_at : Server c → ℤ → Result (Entry c)
  entry_at s (negsuc _) = err unknown_index
  entry_at s (pos index) =
      if ltb index (length s.entries)
      then or_panic (get_elem? s.entries index)
      else err unknown_index

  -- `none` is the zero entry with false.
  unfoldable pub latest_entry_for_user : Server c → Bytes → Result (Option (Entry c))
  unfolding lookup Bytes_discrete
  latest_entry_for_user s user = elim (lookup Bytes_discrete user s.latest_by_user) [
    | none ↦ ok none
    | some idx ↦ do e ← or_panic (get_elem? s.entries idx); ok (some e)
  ]

  -- The loop of `InclusionProof` over the first `n` entries; a read past the last one panics.
  pub first_leaves : ℕ → List (Entry c) → Result (List Bytes)
  first_leaves zero es = ok []
  first_leaves (suc n) [] = panic
  first_leaves (suc n) (e ∷ es) = do l ← leaf_data e; ls ← first_leaves n es; ok (l ∷ ls)

  -- `InclusionProof` under a stored tree head.
  pub prove_under :
      Server c → SignedTreeHead c → ℤ → ℕ → Result (Entry c × List Bytes × SignedTreeHead c)
  unfolding first_leaves
  prove_under s sth (negsuc _) size = err unknown_index
  prove_under s sth (pos index) size = do
    guard (ltb index size) unknown_index
    leaves ← first_leaves size s.entries
    tree ← build_tree c.sha256 merkle_domain leaves
    proof ← inclusion_proof tree (pos index)
    e ← or_panic (get_elem? s.entries index)
    ok (e, proof, sth)

  -- A negative tree size covers no index.
  pub prove_at :
      Server c → SignedTreeHead c → ℤ → ℤ → Result (Entry c × List Bytes × SignedTreeHead c)
  unfolding prove_under
  prove_at s sth index (pos size) = prove_under s sth index size
  prove_at s sth index (negsuc _) = err unknown_index

  unfoldable pub prove_inclusion : Server c → ℤ → Result (Entry c × List Bytes × SignedTreeHead c)
  unfolding prove_at
  prove_inclusion s index = elim s.current_sth [
    | none ↦ err no_sth_published
    | some sth ↦ prove_at s sth index sth.tree_size
  ]

  unfoldable pub verify_sth : SignedTreeHead c → Result (Unit {0})
  unfolding sth_signing_bytes
  verify_sth sth =
      verify c sth.operator_identity (sth_signing_bytes sth.tree_size sth.root_hash sth.timestamp)
        sth.signature

  unfoldable pub verify_inclusion : SignedTreeHead c → Entry c → List Bytes → Result (Unit {0})
  unfolding leaf_data
  verify_inclusion sth e proof = do
    leaf ← leaf_data e
    included ← verify_inclusion_proof c.sha256 leaf e.index sth.tree_size proof sth.root_hash
    guard included invalid_log_proof

  unfoldable pub check_key_change : PublicKey c → PublicKey c → Bool → AlertLevel
  check_key_change pinned observed is_logged =
      if equal c pinned observed
      then alert_none
      else if is_logged
      then alert_soft_notice
      else alert_blocking

  unfoldable pub sign_tree_head_for_simulation :
      KeyPair c → ℤ → Bytes → ℕ → c.Entropy → Result (SignedTreeHead c)
  unfolding sign_tree_head
  sign_tree_head_for_simulation operator size r now e = sign_tree_head operator size r now e
