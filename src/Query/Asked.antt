-- ===== src/Query/Asked.antt =====
-- What the settlement checks return is what the chains have answered at the given heights.
use yui_relayer.Base.{Bool, Option, Answered, Returns, Returns-then, Returns-next, Returns-both}
use yui_relayer.Ibc.{Height, Channel, Upgrade, Response, Functions}
use yui_relayer.Chain.{ProvableChain}
use yui_relayer.Query.{query_channel_end, query_channel_pair, query_channel_upgrade_pair}
use yui_relayer.Query.Settled.{query_settled_channel_pair, query_settled_channel_upgrade_pair}

module _ {W : Type 0} (ibc : Functions) (src_ctx dst_ctx : Height) (src dst : ProvableChain W) where
  pub settled_channels-Answered :
      (w : W)
      → Returns
          (λ q.
            Answered (query_channel_end src_ctx src) (q.0)
            × Answered (query_channel_end dst_ctx dst) (q.1))
          (query_settled_channel_pair ibc src_ctx dst_ctx src dst w)
  unfolding query_settled_channel_pair query_channel_pair
  settled_channels-Answered w =
      Returns-then P Q _ (query_channel_pair src_ctx dst_ctx src dst w)
        (Returns-both (query_channel_end src_ctx src) (query_channel_end dst_ctx dst) w)
        (λ q w1 h. Returns-next P _ (src.latest_height w1) (λ src_now w2.
          Returns-next P _ (dst.latest_height w2) (λ dst_now w3.
            Returns-next P _ (query_channel_pair src_now dst_now src dst w3) (λ now w4. h))))
    where
      P : Response Channel × Response Channel × Bool → Type 0
      P q =
          Answered (query_channel_end src_ctx src) (q.0)
          × Answered (query_channel_end dst_ctx dst) (q.1)

      Q : Response Channel × Response Channel → Type 0
      Q q =
          Answered (query_channel_end src_ctx src) (q.0)
          × Answered (query_channel_end dst_ctx dst) (q.1)

  pub settled_upgrades-Answered :
      (w : W)
      → Returns
          (λ q.
            Answered (src.query_channel_upgrade src_ctx) (q.0)
            × Answered (dst.query_channel_upgrade dst_ctx) (q.1))
          (query_settled_channel_upgrade_pair ibc src_ctx dst_ctx src dst w)
  unfolding query_settled_channel_upgrade_pair query_channel_upgrade_pair
  settled_upgrades-Answered w =
      Returns-then P Q _ (query_channel_upgrade_pair src_ctx dst_ctx src dst w)
        (Returns-both (src.query_channel_upgrade src_ctx) (dst.query_channel_upgrade dst_ctx) w)
        (λ q w1 h. Returns-next P _ (src.latest_height w1) (λ src_now w2.
          Returns-next P _ (dst.latest_height w2) (λ dst_now w3.
            Returns-next P _ (query_channel_upgrade_pair src_now dst_now src dst w3)
              (λ now w4. h))))
    where
      P : Option (Response Upgrade) × Option (Response Upgrade) × Bool → Type 0
      P q =
          Answered (src.query_channel_upgrade src_ctx) (q.0)
          × Answered (dst.query_channel_upgrade dst_ctx) (q.1)

      Q : Option (Response Upgrade) × Option (Response Upgrade) → Type 0
      Q q =
          Answered (src.query_channel_upgrade src_ctx) (q.0)
          × Answered (dst.query_channel_upgrade dst_ctx) (q.1)
