-- ===== src/Translog/Log.antt =====
-- The log only grows.
use pqc_chat.Common.{
  ℕ, ◌≡◌, sym, ap, ◌∙◌, List, [], ◌∷◌, ◌++◌, append_assoc, append-nil, Bytes, length, arith,
}
use pqc_chat.Common.Int.{pos}
use pqc_chat.Crypto.{Crypto}
use pqc_chat.Identity.{PublicKey}
use pqc_chat.Translog.{Entry, Server, append, publish_sth}

module _ (c : Crypto) where
  -- The calls that change the log's state. A publication reads the clock and draws for its signature.
  pub data Op : Type 0 where
    appends : Bytes → PublicKey c → ℕ → Op
    publishes : ℕ → c.Entropy → Op

  unfoldable pub step : Server c → Op → Server c
  step s (appends user p now) = (append c s user p now).0
  step s (publishes now e) = (publish_sth c s now e).0

  unfoldable pub run : Server c → List Op → Server c
  unfolding step
  run s [] = s
  run s (op ∷ ops) = run (step s op) ops

  pub publish-entries :
      (s : Server c) (now : ℕ) (e : c.Entropy)
      → ((publish_sth c s now e).0.entries ≡ s.entries)
        × ((publish_sth c s now e).0.latest_by_user ≡ s.latest_by_user)
        × ((publish_sth c s now e).0.operator_id ≡ s.operator_id)
  unfolding publish_sth
  publish-entries s now e = ground arith

  -- The entry that `Append` adds.
  abbrev pub next_entry : Server c → Bytes → PublicKey c → ℕ → Entry c
  next_entry s user p now = record {
    index = pos (length s.entries);
    user_id = user;
    public_key = p;
    timestamp = now;
  }

  -- Whatever is appended and published, the entries that a log has stay, in place and unchanged.
  pub append_only :
      (s : Server c) (ops : List Op)
      → (more : List (Entry c)) × ((run s ops).entries ≡ s.entries ++ more)
  unfolding run append
  append_only s [] = ([], sym (append-nil s.entries))
  append_only s (appends user p now ∷ ops) =
      let (more, e) = append_only (append c s user p now).0 ops in
      (
        next_entry s user p now ∷ more,
        e ∙ append_assoc s.entries (next_entry s user p now ∷ []) more,
      )
  append_only s (publishes now x ∷ ops) =
      let (more, e) = append_only (publish_sth c s now x).0 ops in
      (more, e ∙ ap (λ es. es ++ more) (publish-entries s now x).0)
