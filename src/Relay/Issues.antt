-- ===== src/Relay/Issues.antt =====
-- No bundle is issued twice, over any sequence of calls between two publications.
use pqc_chat.Common.{
  ℕ, ◌+◌, ◌≡◌, ◌≢◌, refl, ap, ◌∙◌, subst, inl, inr, Bool, true, false, List, [], ◌∷◌, Option, none,
  some, Bytes, Bytes_discrete, get_elem?, get_elem?-lt, get_elem?-set_self, get_elem?-set_ne, set,
  arith, ℕ_discrete,
}
use pqc_chat.Common.Int.{ℤ}
use pqc_chat.Common.Map.{lookup, insert, lookup-insert_self, lookup-insert_ne}
use pqc_chat.Result.{Error, ok, err, no_prekeys_available}
use pqc_chat.Crypto.{Crypto}
use pqc_chat.Identity.{PublicKey}
use pqc_chat.Prekey.{Bundle, LastResort}
use pqc_chat.Relay.{
  Server, UserPrekeys, publish_identity, publish_prekeys, fetch_entry, fetch_prekey_bundle,
  take_bundle, send_message, poll_messages, purge_expired,
}
use pqc_chat.Relay.Prekeys.{IsWell}
use pqc_chat.Relay.Pool.{Takes, fetch_entry-Outcome, take_bundle-IsWell}

module _ (c : Crypto) where
  -- The calls that change the server's state.
  pub data Op : Type 0 where
    publishes_identity : Bytes → PublicKey c → Op
    publishes_prekeys : Bytes → List Bundle → Option LastResort → Op
    fetches : Bytes → Op
    sends : Bytes → Bytes → Bytes → ℕ → Op
    polls : Bytes → Op
    purges : ℕ → ℤ → Op

  unfoldable pub step : Server c → Op → Server c
  step s (publishes_identity user p) = publish_identity c s user p
  step s (publishes_prekeys user bundles lr) = publish_prekeys c s user bundles lr
  step s (fetches user) = (fetch_prekey_bundle c s user).0
  step s (sends recipient sender envelope now) = (send_message c s recipient sender envelope now).0
  step s (polls user) = (poll_messages c s user).0
  step s (purges now ttl) = (purge_expired c s now ttl).0

  unfoldable pub run : Server c → List Op → Server c
  run s [] = s
  run s (op ∷ ops) = run (step s op) ops

  abbrev pub entry_of : Server c → Bytes → Option UserPrekeys
  entry_of s user = lookup Bytes_discrete user s.prekeys

  -- Every user's entry has one mark for each bundle.
  abbrev pub IsWellKept : Server c → Type 0
  IsWellKept s = (user : Bytes) (up : UserPrekeys) → entry_of s user ≡ some up → IsWell up

  -- What `FetchPrekeyBundle` leaves of an entry, and what it answers.
  pub record Fetched (s : Server c) (user : Bytes) (up : UserPrekeys) : Type 0 where
    pub up' : UserPrekeys
    pub after : entry_of (fetch_prekey_bundle c s user).0 user ≡ some up'
    pub bundles : up'.bundles ≡ up.bundles
    pub well : IsWell up'
    pub marks : (j : ℕ) → get_elem? up.consumed j ≡ some true → get_elem? up'.consumed j ≡ some true
    pub others : (j : Bytes) → user ≢ j → entry_of (fetch_prekey_bundle c s user).0 j ≡ entry_of s j
    pub issues :
        (b : Bundle)
        → (fetch_prekey_bundle c s user).1 ≡ ok (some b, false)
        → (i : ℕ) × (get_elem? up.consumed i ≡ some false)
          × (get_elem? up.bundles i ≡ some b)
          × (get_elem? up'.consumed i ≡ some true)

  pub fetch-ok :
      (s : Server c) (user : Bytes) (up up' : UserPrekeys) (b : Option Bundle) (last : Bool)
      → entry_of s user ≡ some up
      → fetch_entry (some up) ≡ ok (up', b, last)
      → fetch_prekey_bundle c s user
        ≡ (record s { prekeys = insert Bytes_discrete user up' s.prekeys }, ok (b, last))
  unfolding fetch_prekey_bundle
  fetch-ok s user up up' b last found e =
      rw (found, fetch_prekey_bundle) (rw (e, fetch_prekey_bundle))

  pub fetch-err :
      (s : Server c) (user : Bytes) (up : UserPrekeys) (e : Error)
      → entry_of s user ≡ some up
      → fetch_entry (some up) ≡ err e
      → fetch_prekey_bundle c s user ≡ (s, err e)
  unfolding fetch_prekey_bundle
  fetch-err s user up e found r = rw (found, fetch_prekey_bundle) (rw (r, fetch_prekey_bundle))

  take_bundle-marks :
      (up : UserPrekeys) (idx j : ℕ)
      → get_elem? up.consumed j ≡ some true
      → get_elem? (take_bundle up idx).consumed j ≡ some true
  unfolding take_bundle
  take_bundle-marks up idx j h = elim (ℕ_discrete idx j) [
    | yes same ↦
        subst (λ k. get_elem? (set up.consumed idx true) k ≡ some true) same
          (get_elem?-set_self up.consumed idx true (omega (arith, get_elem?-lt up.consumed j h)))
    | no other ↦ get_elem?-set_ne up.consumed idx j true other ∙ h
  ]

  taken-Fetched :
      (s : Server c) (user : Bytes) (up up' : UserPrekeys) (b : Bundle)
      → IsWell up
      → Takes up up' b
      → fetch_prekey_bundle c s user
        ≡ (record s { prekeys = insert Bytes_discrete user up' s.prekeys }, ok (some b, false))
      → Fetched s user up
  unfolding take_bundle
  taken-Fetched s user up up' b w t e = record {
    up' = take_bundle up t.idx;
    after =
        rw e (rw t.entry (lookup-insert_self Bytes_discrete user (take_bundle up t.idx) s.prekeys));
    bundles = refl;
    well = take_bundle-IsWell up t.idx w;
    marks = take_bundle-marks up t.idx;
    others = λ j h. rw e (lookup-insert_ne Bytes_discrete user j up' s.prekeys h);
    issues = λ b' r.
        let same : b ≡ b' = ground arith in
        (
          t.idx,
          t.free,
          t.there ∙ ap some same,
          get_elem?-set_self up.consumed t.idx true (get_elem?-lt up.consumed t.idx t.free),
        );
  }

  pub fetch-Fetched :
      (s : Server c) (user : Bytes) (up : UserPrekeys)
      → IsWell up
      → entry_of s user ≡ some up
      → Fetched s user up
  fetch-Fetched s user up w found = elim (fetch_entry-Outcome up w) [
    | inl (up', b, e, t) ↦
        taken-Fetched s user up up' b w t (fetch-ok s user up up' (some b) false found e)
    | inr (_, inl (lr, _, e)) ↦
        let up' = record up { last_resort_use = up.last_resort_use + 1 } in
        let r = fetch-ok s user up up' none true found e in
        record {
          up' = up';
          after = rw r (lookup-insert_self Bytes_discrete user up' s.prekeys);
          bundles = refl;
          well = record { marked = w.marked };
          marks = λ j h. h;
          others = λ j h. rw r (lookup-insert_ne Bytes_discrete user j up' s.prekeys h);
          issues = λ b q. absurd (ground arith);
        }
    | inr (_, inr (_, e)) ↦
        let r = fetch-err s user up no_prekeys_available found e in
        record {
          up' = up;
          after = rw r found;
          bundles = refl;
          well = w;
          marks = λ j h. h;
          others = λ j h. rw r;
          issues = λ b q. absurd (ground arith);
        }
  ]
