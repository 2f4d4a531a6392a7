-- ===== src/Tendermint/Unfinalized/Sequences.antt =====
-- Which packets the queries for unfinalized packets and acknowledgements give
-- (chains/tendermint/query.go).
use yui_relayer.Base.{
  ℕ, String, List, [], ◌∷◌, Option, ◌==◌, ◌≡◌, refl, ◌∙◌, ap, if◌then◌else◌, inl, inr, Bool-cases,
  contains, subst, ok, pure, ◌>>=◌, Action, Answered, Returns, Returns-next, Returns-asked,
  Returns-then, arith,
}
use yui_relayer.Ibc.{Height, Header, Packet}
use yui_relayer.Packet.{PacketInfo, extract_sequence_list, filter}
use yui_relayer.Chain.{ProvableChain}
use yui_relayer.Events.{first_packet, find_packet_from_events_by_sequence, get_packets_from_events}
use yui_relayer.Tendermint.Unfinalized.{
  Sought, Node, query_tx, query_packet, or_missing, query_sent_packet, query_received_packet,
  query_written_acknowledgement, collect, sent_packet, acknowledged_packet,
  unfinalized_relay_packets, unfinalized_relay_acknowledgements,
}

-- The sequences that are also in the other list.
abbrev pub kept : List ℕ → List ℕ → List ℕ
kept seqs [] = []
kept seqs (n ∷ ns) = let rest = kept seqs ns in if contains seqs n then n ∷ rest else rest

extract_sequence_list-filter :
    (ps : List PacketInfo) (seqs : List ℕ)
    → extract_sequence_list (filter ps seqs) ≡ kept seqs (extract_sequence_list ps)
unfolding extract_sequence_list filter
extract_sequence_list-filter [] seqs = refl
extract_sequence_list-filter (p ∷ ps) seqs = elim (Bool-cases (contains seqs p.packet.sequence)) [
  | inl y ↦ rw y (ap (λ l. p.packet.sequence ∷ l) (extract_sequence_list-filter ps seqs))
  | inr y ↦ rw y (extract_sequence_list-filter ps seqs)
]

first_or_missing :
    {W : Type 0} (seq : ℕ) (ps : List Packet) (w : W)
    → Returns (λ p. p.sequence ≡ seq) (or_missing (first_packet seq ps) w)
first_or_missing seq [] w = tt
first_or_missing seq (p ∷ ps) w = elim (Bool-cases (p.sequence == seq)) [
  | inl y ↦ rw y (ground arith)
  | inr y ↦ rw y (first_or_missing seq ps w)
]

-- The result of a query for a sequence has that sequence.
abbrev pub HasSequence : ℕ → PacketInfo → Type 0
HasSequence seq info = info.packet.sequence ≡ seq

module _ {W : Type 0} (node : Node W) where
  query_packet-sequence :
      (sought : Sought) (type : String) (ctx : Height) (seq : ℕ) (w : W)
      → Returns (λ r. (r.0).sequence ≡ seq) (query_packet node sought type ctx seq w)
  unfolding query_packet find_packet_from_events_by_sequence
  query_packet-sequence sought type ctx seq w =
      Returns-next P _ (query_tx node sought ctx seq w) (λ tx w1.
        Returns-then P Found _
          (find_packet_from_events_by_sequence node.validate_basic tx.events type seq w1)
          (Returns-next Found _ (get_packets_from_events node.validate_basic tx.events type w1)
            (λ ps w2. first_or_missing seq ps))
          (λ found w2 h.
            Returns-then P (λ p. p.sequence ≡ seq) _ (or_missing found w2) (h w2) (λ p w3 e. e)))
    where
      P : Packet × Height → Type 0
      P r = (r.0).sequence ≡ seq

      Found : Option Packet → Type 0
      Found found = (w : W) → Returns (λ p. p.sequence ≡ seq) (or_missing found w)

  sent_packet-sequence :
      (ctx : Height) (seq : ℕ) (w : W) → Returns (HasSequence seq) (sent_packet node ctx seq w)
  unfolding sent_packet query_sent_packet
  sent_packet-sequence ctx seq w =
      Returns-then (HasSequence seq) (λ r. (r.0).sequence ≡ seq) _
        (query_sent_packet node ctx seq w)
        (query_packet-sequence Sought.sent node.send_packet ctx seq w) (λ r w1 e. e)

  acknowledged_packet-sequence :
      (ctx : Height) (seq : ℕ) (w : W)
      → Returns (HasSequence seq) (acknowledged_packet node ctx seq w)
  unfolding acknowledged_packet query_received_packet
  acknowledged_packet-sequence ctx seq w =
      Returns-then (HasSequence seq) (λ r. (r.0).sequence ≡ seq) _
        (query_received_packet node ctx seq w)
        (query_packet-sequence Sought.received node.recv_packet ctx seq w)
        (λ r w1 e.
          Returns-next (HasSequence seq) _ (query_written_acknowledgement node ctx seq w1)
            (λ ack w2. e))

  collect-sequences :
      (query : ℕ → Action W PacketInfo) (seqs : List ℕ) (w : W)
      → ((seq : ℕ) (w : W) → Returns (HasSequence seq) (query seq w))
      → Returns (λ infos. extract_sequence_list infos ≡ seqs) (collect node query seqs w)
  unfolding collect extract_sequence_list
  collect-sequences query [] w h = refl
  collect-sequences query (seq ∷ seqs) w h =
      Returns-then P (HasSequence seq) _ (query seq w) (h seq w) (λ info w1 e.
        Returns-then P (λ infos. extract_sequence_list infos ≡ seqs) _ (collect node query seqs w1)
          (collect-sequences query seqs w1 h) (λ infos w2 e'. rw (e, e') refl))
    where
      P : List PacketInfo → Type 0
      P infos = extract_sequence_list infos ≡ seq ∷ seqs

-- What a query for unfinalized packets gives: in the order of the sequences that the chain has
-- committed, those that the counterparty answers not to have received at its finalized height.
pub record Unrelayed {W : Type 0} (commitments : Action W (List ℕ)) (finalized : Action W Header)
    (unreceived : Height → List ℕ → Action W (List ℕ)) (infos : List PacketInfo) : Type 0 where
  pub committed : List ℕ
  pub header : Header
  pub missing : List ℕ
  pub is_committed : Answered commitments committed
  pub is_finalized : Answered finalized header
  pub is_missing : Answered (unreceived header.height committed) missing
  pub sequences : extract_sequence_list infos ≡ kept missing committed

module _ {W : Type 0} (commitments : Action W (List ℕ)) (finalized : Action W Header)
    (unreceived : Height → List ℕ → Action W (List ℕ)) where
  -- What both queries do after the loop.
  abbrev pub remaining : List PacketInfo → Action W (List PacketInfo)
  remaining packets = do
    header ← finalized
    seqs ← unreceived header.height (extract_sequence_list packets)
    pure (filter packets seqs)

  remaining-Unrelayed :
      (committed : List ℕ) (packets : List PacketInfo) (w : W)
      → Answered commitments committed
      → extract_sequence_list packets ≡ committed
      → Returns (Unrelayed commitments finalized unreceived) (remaining packets w)
  remaining-Unrelayed committed packets w a e = Returns-asked P _ (finalized w) (λ header w1 b.
      Returns-asked P _ (unreceived header.height (extract_sequence_list packets) w1)
        (λ missing w2 c. record {
          committed = committed;
          header = header;
          missing = missing;
          is_committed = a;
          is_finalized = (w, w1, b);
          is_missing = (w1, w2, subst (λ l. unreceived header.height l w1 ≡ (ok missing, w2)) e c);
          sequences = extract_sequence_list-filter packets missing ∙ ap (kept missing) e;
        }))
    where
      P : List PacketInfo → Type 0
      P = Unrelayed commitments finalized unreceived

  collected-Unrelayed :
      (node : Node W) (query : ℕ → Action W PacketInfo) (w : W)
      → ((seq : ℕ) (w : W) → Returns (HasSequence seq) (query seq w))
      → Returns
          (Unrelayed commitments finalized unreceived)
          ((commitments >>= λ committed. collect node query committed >>= remaining) w)
  collected-Unrelayed node query w h = Returns-asked P _ (commitments w) (λ committed w1 a.
      Returns-then P (λ infos. extract_sequence_list infos ≡ committed) _
        (collect node query committed w1) (collect-sequences node query committed w1 h)
        (λ packets w2 e. remaining-Unrelayed committed packets w2 (w, w1, a) e))
    where
      P : List PacketInfo → Type 0
      P = Unrelayed commitments finalized unreceived

pub unfinalized_relay-Unrelayed :
    {W : Type 0} (node : Node W) (counterparty : ProvableChain W) (ctx : Height) (w : W)
    → Returns
        (Unrelayed
          (node.packet_commitments ctx)
          counterparty.get_latest_finalized_header
          counterparty.query_unreceived_packets)
        (unfinalized_relay_packets node counterparty ctx w)
      × Returns
          (Unrelayed
            (node.packet_acknowledgements ctx)
            counterparty.get_latest_finalized_header
            counterparty.query_unreceived_acknowledgements)
          (unfinalized_relay_acknowledgements node counterparty ctx w)
unfolding unfinalized_relay_packets unfinalized_relay_acknowledgements
unfinalized_relay-Unrelayed node counterparty ctx w = (
  collected-Unrelayed (node.packet_commitments ctx) counterparty.get_latest_finalized_header
      counterparty.query_unreceived_packets node (sent_packet node ctx) w
      (sent_packet-sequence node ctx),
  collected-Unrelayed (node.packet_acknowledgements ctx) counterparty.get_latest_finalized_header
      counterparty.query_unreceived_acknowledgements node (acknowledged_packet node ctx) w
      (acknowledged_packet-sequence node ctx),
)
