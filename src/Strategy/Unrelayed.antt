-- ===== src/Strategy/Unrelayed.antt =====
-- `UnrelayedPackets` and `UnrelayedAcknowledgements` of core/naive-strategy.go, and the queries of
-- `updateBacklogMetrics`, whose error the first returns. The texts that `fmt.Errorf` puts around an
-- error are left out.
use yui_relayer.Base.{
  String, Bool, true, false, List, [], ◌∷◌, if◌then◌else◌, Outcome, ok, err, panic, Error, Action,
  both, beside, pure, ◌>>=◌, ◌>>◌,
}
use yui_relayer.Ibc.{Height}
use yui_relayer.Packet.{PacketInfo, RelayPackets, extract_sequence_list, filter}
use yui_relayer.Chain.{ProvableChain}
use yui_relayer.Headers.{SyncHeaders, updates}
use yui_relayer.Loop.{Retry}
use yui_relayer.Strategy.{NaiveStrategy, query_context}

abbrev pub relay_packets_of : List PacketInfo → List PacketInfo → RelayPackets
relay_packets_of src dst = record { src = src; dst = dst; src_timeout = []; dst_timeout = [] }

-- The headers of the service are read from beside the world.
abbrev pub with_headers : {W A : Type 0} → (SyncHeaders → Action W A) → Action (W × SyncHeaders) A
with_headers f (w, sh) = beside (f sh) (w, sh)

-- A goroutine that is started unless the setting forbids it; its list is otherwise left alone.
abbrev pub unless :
    {S : Type 0} → Bool → List PacketInfo → Action S (List PacketInfo) → Action S (List PacketInfo)
unless no_ack ps m = if no_ack then pure ps else m

module _ {W : Type 0} (retry : Retry) (src dst : ProvableChain W) where
  -- updateBacklogMetrics: the time of the oldest packet is queried.
  unfoldable pub oldest_timestamp : ProvableChain W → List PacketInfo → Action W (Unit {0})
  oldest_timestamp chain [] = pure tt
  oldest_timestamp chain (p ∷ ps) = chain.timestamp p.event_height >>= λ t. pure tt

  -- The packets of `from` that `to` has not received, at its latest height.
  unfoldable pub unreceived_packets :
      ProvableChain W → Height → List PacketInfo → Action W (List PacketInfo)
  unfolding extract_sequence_list filter
  unreceived_packets to ctx ps = do
    seqs ← to.query_unreceived_packets ctx (extract_sequence_list ps)
    pure (filter ps seqs)

  unfoldable pub only_unreceived_packets :
      SyncHeaders → List PacketInfo → List PacketInfo → Action W (List PacketInfo × List PacketInfo)
  unfolding query_context unreceived_packets
  only_unreceived_packets sh src_packets dst_packets = do
    src_ctx ← query_context src sh false
    dst_ctx ← query_context dst sh false
    both (unreceived_packets dst dst_ctx src_packets) (unreceived_packets src src_ctx dst_packets)

  -- NaiveStrategy.UnrelayedPackets
  unfoldable pub unrelayed_packets : SyncHeaders → Bool → Action W RelayPackets
  unfolding query_context oldest_timestamp only_unreceived_packets
  unrelayed_packets sh include_relayed_but_unfinalized = do
    src_ctx ← query_context src sh true
    dst_ctx ← query_context dst sh true
    (src_packets, dst_packets) ←
        both
          (retry.run W (List PacketInfo) (src.query_unfinalized_relay_packets src_ctx dst.chain_id))
          (retry.run W (List PacketInfo) (dst.query_unfinalized_relay_packets dst_ctx src.chain_id))
    oldest_timestamp src src_packets
    oldest_timestamp dst dst_packets
    (src_left, dst_left) ←
        if include_relayed_but_unfinalized
        then pure (src_packets, dst_packets)
        else only_unreceived_packets sh src_packets dst_packets
    pure (relay_packets_of src_left dst_left)

  -- The `OnRetry` of the acknowledgement queries: after a failed attempt the headers are updated, and
  -- an error of that is ignored.
  unfoldable pub updated :
      Error → SyncHeaders → Outcome SyncHeaders × W → Outcome (List PacketInfo) × (W × SyncHeaders)
  updated e sh (ok sh', w) = (err e, (w, sh'))
  updated e sh (err e', w) = (err e, (w, sh))
  updated e sh (panic, w) = (panic, (w, sh))

  unfoldable pub on_retry :
      SyncHeaders → Outcome (List PacketInfo) × W → Outcome (List PacketInfo) × (W × SyncHeaders)
  unfolding updated updates
  on_retry sh (ok ps, w) = (ok ps, (w, sh))
  on_retry sh (err e, w) = updated e sh (updates src dst sh w)
  on_retry sh (panic, w) = (panic, (w, sh))

  unfoldable pub acknowledgements_of :
      ProvableChain W → Height → String → Action (W × SyncHeaders) (List PacketInfo)
  unfolding on_retry
  acknowledgements_of chain ctx counterparty =
      retry.run (W × SyncHeaders) (List PacketInfo)
        (λ (w, sh). on_retry sh (chain.query_unfinalized_relay_acknowledgements ctx counterparty w))

  unfoldable pub unreceived_acknowledgements :
      ProvableChain W → Height → List PacketInfo → Action W (List PacketInfo)
  unfolding extract_sequence_list filter
  unreceived_acknowledgements to ctx ps = do
    seqs ← to.query_unreceived_acknowledgements ctx (extract_sequence_list ps)
    pure (filter ps seqs)

  unfoldable pub only_unreceived_acknowledgements :
      NaiveStrategy
      → SyncHeaders
      → List PacketInfo
      → List PacketInfo
      → Action W (List PacketInfo × List PacketInfo)
  unfolding query_context unreceived_acknowledgements
  only_unreceived_acknowledgements st sh src_acks dst_acks = do
    src_ctx ← query_context src sh false
    dst_ctx ← query_context dst sh false
    both (unless st.dst_no_ack src_acks (unreceived_acknowledgements dst dst_ctx src_acks))
        (unless st.src_no_ack dst_acks (unreceived_acknowledgements src src_ctx dst_acks))

  -- NaiveStrategy.UnrelayedAcknowledgements: the query contexts are those of the headers before any
  -- retry.
  unfoldable pub unrelayed_acknowledgements :
      NaiveStrategy → Bool → Action (W × SyncHeaders) RelayPackets
  unfolding query_context acknowledgements_of only_unreceived_acknowledgements
  unrelayed_acknowledgements st include_relayed_but_unfinalized = do
    src_ctx ← with_headers (λ sh. query_context src sh true)
    dst_ctx ← with_headers (λ sh. query_context dst sh true)
    (src_acks, dst_acks) ←
        both (unless st.dst_no_ack [] (acknowledgements_of src src_ctx dst.chain_id))
          (unless st.src_no_ack [] (acknowledgements_of dst dst_ctx src.chain_id))
    (src_left, dst_left) ←
        if include_relayed_but_unfinalized
        then pure (src_acks, dst_acks)
        else with_headers (λ sh. only_unreceived_acknowledgements st sh src_acks dst_acks)
    pure (relay_packets_of src_left dst_left)
