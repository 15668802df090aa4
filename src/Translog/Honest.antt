-- ===== src/Translog/Honest.antt =====
-- An honest log is never accused: what clients see of one history, they find no evidence in.
use pqc_chat.Common.{◌≡◌, sym, ap, ◌∙◌, List, [], All, All-map}
use pqc_chat.Result.{ok}
use pqc_chat.Crypto.{Crypto, DsaKeyLaws, SignLaws}
use pqc_chat.Identity.{KeyPair, generate, public}
use pqc_chat.Translog.{SignedTreeHead, new_server}
use pqc_chat.Translog.Log.{Op, run}
use pqc_chat.Translog.Sound.{Covers}
use pqc_chat.Translog.Heads.{published, among-Covers, IsAmong, run_operator}
use pqc_chat.Translog.View.{ClientView, new_client_view, observe_all, heads, gossip_with}
use pqc_chat.Translog.Returns.{gossip_with-ok}
use pqc_chat.Translog.Calm.{
  IsCalm, replies, Knows, Trusts, observe_all-Calm, observe_all-Knows, replies-IsCalm, heads-Covers,
}

module _ (c : Crypto) (signs : SignLaws c) (keys : DsaKeyLaws c) where
  -- What a client remembers after it has observed some heads.
  abbrev pub viewed : KeyPair c → List (SignedTreeHead c) → ClientView c
  viewed operator sths = (observe_all c (new_client_view c (public c operator)) sths).0

  -- The server after a history, and the view of a client that has seen nothing.
  begun :
      (operator : KeyPair c) (ops : List (Op c))
      → ((run c (new_server c operator) ops).operator_id ≡ operator)
        × Trusts c signs keys
            (run c (new_server c operator) ops)
            (new_client_view c (public c operator))
  unfolding new_client_view
  begun operator ops =
      let same : (run c (new_server c operator) ops).operator_id ≡ operator =
        unfold new_server in run_operator c (new_server c operator) ops in
      (same, record { by = ap (public c) (sym same); seen = tt })

  published-Covers :
      (operator : KeyPair c) (ops : List (Op c)) (sths : List (SignedTreeHead c))
      → All (λ h. IsAmong c h (published c (new_server c operator) ops)) sths
      → All (Covers c (run c (new_server c operator) ops)) sths
  published-Covers operator ops sths among =
      All-map (λ h. IsAmong c h (published c (new_server c operator) ops))
        (Covers c (run c (new_server c operator) ops)) (λ h. among-Covers c operator ops h) sths
        among

  -- Under the laws of the signatures and of ML-DSA-65 keys: two clients observe any tree heads that an
  -- honest log with a generated key has published, in any order and from any time of one history, and
  -- then gossip. `Observe` accepts each of those heads without an error and without evidence, and its
  -- client then remembers a head of that size with that root. In the exchange `Observe` also accepts
  -- each head that a side is shown without an error and without evidence; both loops of `GossipWith`
  -- return, and neither side has a report.
  pub never_accused :
      (e f : c.Entropy) (operator : KeyPair c) (ops : List (Op c))
      (sths sths' : List (SignedTreeHead c))
      → generate c e f ≡ ok operator
      → All (λ h. IsAmong c h (published c (new_server c operator) ops)) sths
      → All (λ h. IsAmong c h (published c (new_server c operator) ops)) sths'
      → IsCalm c signs keys (replies c signs keys (new_client_view c (public c operator)) sths)
        × All (Knows c signs keys (viewed operator sths)) sths
        × IsCalm c signs keys (replies c signs keys (new_client_view c (public c operator)) sths')
        × All (Knows c signs keys (viewed operator sths')) sths'
        × IsCalm c signs keys
            (replies c signs keys (viewed operator sths) (heads c (viewed operator sths').seen))
        × IsCalm c signs keys
            (replies c signs keys (viewed operator sths') (heads c (viewed operator sths).seen))
        × ((gossip_with c (viewed operator sths) (viewed operator sths')).0.1 ≡ ok [])
        × ((gossip_with c (viewed operator sths) (viewed operator sths')).1.1 ≡ ok [])
  never_accused e f operator ops sths sths' made among among' =
      let s = run c (new_server c operator) ops in
      let (same, none_seen) = begun operator ops in
      let made_s = made ∙ ap ok (sym same) in
      let seen = published-Covers operator ops sths among in
      let v = new_client_view c (public c operator) in
      let (t, _) = observe_all-Calm c signs keys e f s v sths made_s none_seen seen in
      let seen' = published-Covers operator ops sths' among' in
      let (t', _) = observe_all-Calm c signs keys e f s v sths' made_s none_seen seen' in
      let shown = heads-Covers c signs keys s (viewed operator sths').seen t'.seen in
      let shown' = heads-Covers c signs keys s (viewed operator sths).seen t.seen in
      let calm =
        (observe_all-Calm c signs keys e f s (viewed operator sths)
          (heads c (viewed operator sths').seen) made_s t shown).1 in
      let both = gossip_with-ok c keys (viewed operator sths) (viewed operator sths') [] calm in
      (
        replies-IsCalm c signs keys e f s v sths made_s none_seen seen,
        observe_all-Knows c signs keys e f s v sths made_s none_seen seen,
        replies-IsCalm c signs keys e f s v sths' made_s none_seen seen',
        observe_all-Knows c signs keys e f s v sths' made_s none_seen seen',
        replies-IsCalm c signs keys e f s (viewed operator sths)
            (heads c (viewed operator sths').seen) made_s t shown,
        replies-IsCalm c signs keys e f s (viewed operator sths')
            (heads c (viewed operator sths).seen) made_s t' shown',
        ap (λ q. q.0.1) both ∙ calm,
        ap (λ q. q.1.1) both
            ∙ (observe_all-Calm c signs keys e f s (viewed operator sths')
                (heads c (viewed operator sths).seen) made_s t' shown').1,
      )
