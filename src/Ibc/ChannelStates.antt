-- ===== src/Ibc/ChannelStates.antt =====
-- The states of chantypes.State; `opened` is OPEN.
use mathlib.Core.Bool.{Bool, true, false}

pub data ChannelState : Type 0 where
  uninitialized init tryopen opened closed flushing flushcomplete : ChannelState

abbrev pub is_uninitialized : ChannelState → Bool
is_uninitialized uninitialized = true
is_uninitialized _ = false

abbrev pub is_opened : ChannelState → Bool
is_opened opened = true
is_opened _ = false

abbrev pub is_flushcomplete : ChannelState → Bool
is_flushcomplete flushcomplete = true
is_flushcomplete _ = false
