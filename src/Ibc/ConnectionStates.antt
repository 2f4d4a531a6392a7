-- ===== src/Ibc/ConnectionStates.antt =====
-- The states of conntypes.State; `opened` is OPEN.
use mathlib.Core.Bool.{Bool, true, false}

pub data ConnectionState : Type 0 where
  uninitialized init tryopen opened : ConnectionState

abbrev pub is_uninitialized : ConnectionState → Bool
is_uninitialized uninitialized = true
is_uninitialized _ = false

abbrev pub is_opened : ConnectionState → Bool
is_opened opened = true
is_opened _ = false
