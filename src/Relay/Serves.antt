-- ===== src/Relay/Serves.antt =====
-- The calls on identities and prekeys keep the relay's contract.
use pqc_chat.Common.{
  Never, ◌≡◌, ◌≢◌, refl, sym, ap, ◌∙◌, subst, ite, if_pos, if_neg, inl, inr, List, Option, none,
  some, Bytes, Bytes_discrete,
}
use pqc_chat.Common.Map.{lookup, lookup-insert, lookup-insert_self, lookup-insert_ne}
use pqc_chat.Crypto.{Crypto}
use pqc_chat.Identity.{PublicKey}
use pqc_chat.Prekey.{Bundle, LastResort}
use pqc_chat.Relay.{
  Server, UserPrekeys, or_empty, publish_identity, publish_prekeys, fetch_prekey_bundle, queue_of,
}
use pqc_chat.Relay.InOrder.{Pool, InOrder, published, published-InOrder, fetch_entry-Drawn, draw}
use pqc_chat.Relay.Issues.{entry_of, fetch-ok, fetch-err}
use pqc_chat.Relay.WellKept.{fetch_unknown}
use pqc_chat.Relay.Expiry.{IsMap}
use pqc_chat.Relay.Queues.{fetch-rest}
use pqc_chat.Relay.Contract.{Contract, Reply, put, fetched, fetch_from}

-- A user's entry stands for the user's pool.
abbrev pub Stands : Option UserPrekeys → Option Pool → Type 0
Stands none none = Unit
Stands none (some p) = Never
Stands (some up) none = Never
Stands (some up) (some p) = InOrder up p

-- A function of two maps that agree but at one place.
put-Stands :
    (user : Bytes) (m m' : Bytes → Option UserPrekeys) (f : Bytes → Option Pool) (p : Pool)
    → Stands (m' user) (some p)
    → ((j : Bytes) → user ≢ j → m' j ≡ m j)
    → ((j : Bytes) → Stands (m j) (f j))
    → (j : Bytes) → Stands (m' j) (put user (some p) f j)
put-Stands user m m' f p here same all j = elim (Bytes_discrete user j) [
  | yes at ↦ rw (if_pos _ at) (subst (λ k. Stands (m' k) (some p)) at here)
  | no other ↦ rw (if_neg _ other) (subst (λ o. Stands o (f j)) (sym (same j other)) (all j))
]

module _ (c : Crypto) where
  pub record Keeps (s : Server c) (k : Contract c) : Type 0 where
    pub identity : (j : Bytes) → lookup Bytes_discrete j s.identities ≡ k.identity j
    pub pool : (j : Bytes) → Stands (entry_of c s j) (k.pool j)
    pub queue : (j : Bytes) → queue_of c s j ≡ k.queue j
    pub once : IsMap s.queues

  -- One call keeps the contract, and its reply is the promised one.
  abbrev pub Serves : Server c → Server c → Reply c → Contract c × Reply c → Type 0
  Serves s s' r (k', r') = Keeps s' k' × (r ≡ r')

  pub publish_identity-Keeps :
      (s : Server c) (k : Contract c) (user : Bytes) (p : PublicKey c)
      → Keeps s k
      → Keeps (publish_identity c s user p) (record k { identity = put user (some p) k.identity })
  unfolding publish_identity queue_of
  publish_identity-Keeps s k user p h = record {
    identity = λ j.
        lookup-insert Bytes_discrete user j p s.identities
        ∙ ap (λ o. ite (Bytes_discrete user j) (some p) o) (h.identity j);
    pool = h.pool;
    queue = h.queue;
    once = h.once;
  }

  pub publish_prekeys-Keeps :
      (s : Server c) (k : Contract c) (user : Bytes) (bundles : List Bundle)
      (lr : Option LastResort)
      → Keeps s k
      → Keeps
          (publish_prekeys c s user bundles lr)
          (record k { pool = put user (some (published bundles lr)) k.pool })
  unfolding publish_prekeys queue_of
  publish_prekeys-Keeps s k user bundles lr h = record {
    identity = h.identity;
    pool =
        put-Stands user (entry_of c s) (entry_of c (publish_prekeys c s user bundles lr)) k.pool
          (published bundles lr)
          (subst (λ o. Stands o (some (published bundles lr)))
            (sym (lookup-insert_self Bytes_discrete user _ s.prekeys))
            (published-InOrder bundles lr))
          (λ j other. lookup-insert_ne Bytes_discrete user j _ s.prekeys other) h.pool;
    queue = h.queue;
    once = h.once;
  }

  -- The other fields after a fetch.
  fetch-Keeps :
      (s : Server c) (k : Contract c) (user : Bytes) (f : Bytes → Option Pool)
      → Keeps s k
      → ((j : Bytes) → Stands (entry_of c (fetch_prekey_bundle c s user).0 j) (f j))
      → Keeps (fetch_prekey_bundle c s user).0 (record k { pool = f })
  unfolding queue_of
  fetch-Keeps s k user f h pools =
      let (ids, queues) = fetch-rest c s user in
      record {
        identity = λ j. ap (lookup Bytes_discrete j) ids ∙ h.identity j;
        pool = pools;
        queue = λ j. ap (λ m. or_empty (lookup Bytes_discrete j m)) queues ∙ h.queue j;
        once = subst IsMap (sym queues) h.once;
      }

  pub fetch-Serves :
      (s : Server c) (k : Contract c) (user : Bytes) (o : Option UserPrekeys) (q : Option Pool)
      → entry_of c s user ≡ o
      → k.pool user ≡ q
      → Stands o q
      → Keeps s k
      → Serves s
          (fetch_prekey_bundle c s user).0
          (fetched (fetch_prekey_bundle c s user).1)
          (fetch_from c k user q)
  fetch-Serves s k user none none found known e h =
      let r = fetch_unknown c s user found in
      (subst (λ t. Keeps t k) (sym (ap (λ x. x.0) r)) h, ap (λ x. fetched x.1) r)
  fetch-Serves s k user none (some p) found known e h = elim e [ ]
  fetch-Serves s k user (some up) none found known e h = elim e [ ]
  fetch-Serves s k user (some up) (some p) found known e h = elim (fetch_entry-Drawn up p e) [
    | inl (up', b, last, r, told, order) ↦
        let taken = fetch-ok c s user up up' b last found r in
        (
          fetch-Keeps s k user (put user (some (draw p).0) k.pool) h (
              put-Stands user (entry_of c s) (entry_of c (fetch_prekey_bundle c s user).0) k.pool
                (draw p).0
                (rw taken (
                  subst (λ o. Stands o (some (draw p).0))
                    (sym (lookup-insert_self Bytes_discrete user up' s.prekeys)) order))
                (λ j other. rw taken (lookup-insert_ne Bytes_discrete user j up' s.prekeys other))
                h.pool),
          ap (λ x. fetched x.1) taken ∙ ap fetched (sym told),
        )
    | inr (r, told, same) ↦
        let kept = fetch-err c s user up _ found r in
        (
          fetch-Keeps s k user (put user (some (draw p).0) k.pool) h (
              put-Stands user (entry_of c s) (entry_of c (fetch_prekey_bundle c s user).0) k.pool
                (draw p).0 (rw kept (rw found (rw same e))) (λ j other. rw kept refl) h.pool),
          ap (λ x. fetched x.1) kept ∙ ap fetched (sym told),
        )
  ]
