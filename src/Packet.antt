-- ===== src/Packet.antt =====
-- core/types.go: packets with the height of their event, and the operations on lists of them.
pub mod Filter
use yui_relayer.Base.{ℕ, List, [], ◌∷◌, if◌then◌else◌, contains, Option}
use yui_relayer.Ibc.{Bytes, Height, Packet}

-- `acknowledgement` is nil in a packet that comes from a SendPacket event.
pub record PacketInfo : Type 0 where
  pub packet : Packet
  pub open packet use *
  pub acknowledgement : Option Bytes
  pub event_height : Height

-- PacketInfoList.ExtractSequenceList
unfoldable pub extract_sequence_list : List PacketInfo → List ℕ
extract_sequence_list [] = []
extract_sequence_list (p ∷ ps) = p.packet.sequence ∷ extract_sequence_list ps

-- PacketInfoList.Subtract: the packets whose sequence is in `seqs` are left out.
unfoldable pub subtract : List PacketInfo → List ℕ → List PacketInfo
subtract [] seqs = []
subtract (p ∷ ps) seqs =
    let rest = subtract ps seqs in if contains seqs p.packet.sequence then rest else p ∷ rest

-- PacketInfoList.Filter: the packets whose sequence is in `seqs` are kept.
unfoldable pub filter : List PacketInfo → List ℕ → List PacketInfo
filter [] seqs = []
filter (p ∷ ps) seqs =
    let rest = filter ps seqs in if contains seqs p.packet.sequence then p ∷ rest else rest

-- RelayPackets
pub record RelayPackets : Type 0 where
  pub src : List PacketInfo
  pub dst : List PacketInfo
  pub src_timeout : List PacketInfo
  pub dst_timeout : List PacketInfo
