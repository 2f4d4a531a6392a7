-- ===== src/Handshake/Progress.antt =====
-- The moves of the two handshakes (core/connection.go, core/channel.go) against the rules that the
-- two chains follow: ICS-03 for connections, ICS-04 for channels. The rules are those of the
-- protocol, which the chains enforce; `Accepted` states them for any type of states that has the
-- four of a handshake.
use yui_relayer.Base.{ℕ, ◌+◌, ◌≤◌, Bool, true, false, Option, some, ◌≡◌, refl, arith, ◌⊎◌, inl, inr}
use yui_relayer.Ibc.ConnectionStates
use yui_relayer.Ibc.ChannelStates
use yui_relayer.Handshake.{
  Side, src_side, dst_side, Step, open_init, open_try, open_ack, open_confirm, is_confirm,
}
use yui_relayer.Handshake.Connection.{connection_move}
use yui_relayer.Handshake.Channel.{channel_move}

-- The `last` of a move's messages.
abbrev pub is_last : Side × Step → Bool
is_last (side, step) = is_confirm step

module _ {S : Type 0} (u i t o : S) where
  -- A chain whose end is in the second state accepts the message when the counterparty's end is in
  -- the third, and its end is then in the last.
  pub data Accepted : Step → S → S → S → Type 0 where
    init_accepted : Accepted open_init u u i
    try_accepted : Accepted open_try u i t
    ack_accepted : Accepted open_ack i t o
    confirm_accepted : Accepted open_confirm t o o

  -- The message of a move is accepted by the chain that it is sent to.
  pub data Moved : Side × Step → S → S → S → S → Type 0 where
    on_src : {step : Step} {s d s' : S} → Accepted step s d s' → Moved (src_side, step) s d s' d
    on_dst : {step : Step} {s d d' : S} → Accepted step d s d' → Moved (dst_side, step) s d s d'

  -- `Completes move s d n`: from the ends `s` and `d`, `n` moves are chosen one after the other,
  -- each is accepted, the last is a confirmation and no other is, and then both ends are open.
  pub data Completes (move : S → S → Option (Side × Step)) : S → S → ℕ → Type 0 where
    closing :
        (m : Side × Step) {s d : S}
        → move s d ≡ some m
        → is_last m ≡ true
        → Moved m s d o o
        → Completes move s d 1
    further :
        (m : Side × Step) {s d s' d' : S} {n : ℕ}
        → move s d ≡ some m
        → is_last m ≡ false
        → Moved m s d s' d'
        → Completes move s' d' n
        → Completes move s d (1 + n)

  -- The pairs of ends that accepted messages lead to, where no message that the relayer did not send
  -- begins a second handshake.
  pub data Reached : S → S → Type 0 where
    start : Reached u u
    moved : {m : Side × Step} {s d s' d' : S} → Reached s d → Moved m s d s' d' → Reached s' d'

  pub data Pair : S → S → Type 0 where
    none_yet : Pair u u
    src_init : Pair i u
    dst_init : Pair u i
    src_try : Pair t i
    dst_try : Pair i t
    src_open : Pair o t
    dst_open : Pair t o
    both_open : Pair o o

  module _ (move : S → S → Option (Side × Step)) (at_none : move u u ≡ some (src_side, open_init))
      (at_src_init : move i u ≡ some (dst_side, open_try))
      (at_dst_init : move u i ≡ some (src_side, open_try))
      (at_src_try : move t i ≡ some (dst_side, open_ack))
      (at_dst_try : move i t ≡ some (src_side, open_ack))
      (at_src_open : move o t ≡ some (dst_side, open_confirm))
      (at_dst_open : move t o ≡ some (src_side, open_confirm)) where
    from_src_open : Completes move o t 1
    from_src_open = closing _ at_src_open refl (on_dst confirm_accepted)

    from_dst_open : Completes move t o 1
    from_dst_open = closing _ at_dst_open refl (on_src confirm_accepted)

    from_src_try : Completes move t i 2
    from_src_try = further _ at_src_try refl (on_dst ack_accepted) from_dst_open

    from_dst_try : Completes move i t 2
    from_dst_try = further _ at_dst_try refl (on_src ack_accepted) from_src_open

    from_src_init : Completes move i u 3
    from_src_init = further _ at_src_init refl (on_dst try_accepted) from_dst_try

    from_dst_init : Completes move u i 3
    from_dst_init = further _ at_dst_init refl (on_src try_accepted) from_src_try

    from_none : Completes move u u 4
    from_none = further _ at_none refl (on_src init_accepted) from_src_init

    pub Pair-Completes :
        {s d : S} → Pair s d → (s ≡ o) × (d ≡ o) ⊎ ((n : ℕ) × Completes move s d n × n ≤ 4)
    Pair-Completes none_yet = inr (4, from_none, omega arith)
    Pair-Completes src_init = inr (3, from_src_init, omega arith)
    Pair-Completes dst_init = inr (3, from_dst_init, omega arith)
    Pair-Completes src_try = inr (2, from_src_try, omega arith)
    Pair-Completes dst_try = inr (2, from_dst_try, omega arith)
    Pair-Completes src_open = inr (1, from_src_open, omega arith)
    Pair-Completes dst_open = inr (1, from_dst_open, omega arith)
    Pair-Completes both_open = inl (refl, refl)

abbrev pub ConnectionReached :
    ConnectionStates.ConnectionState → ConnectionStates.ConnectionState → Type 0
ConnectionReached =
    Reached ConnectionStates.uninitialized ConnectionStates.init ConnectionStates.tryopen
      ConnectionStates.opened

abbrev pub ConnectionCompletes :
    ConnectionStates.ConnectionState → ConnectionStates.ConnectionState → ℕ → Type 0
ConnectionCompletes =
    Completes ConnectionStates.uninitialized ConnectionStates.init ConnectionStates.tryopen
      ConnectionStates.opened connection_move

abbrev pub ConnectionPair :
    ConnectionStates.ConnectionState → ConnectionStates.ConnectionState → Type 0
ConnectionPair =
    Pair ConnectionStates.uninitialized ConnectionStates.init ConnectionStates.tryopen
      ConnectionStates.opened

ConnectionPair-Moved :
    {m : Side × Step} {s d s' d' : ConnectionStates.ConnectionState}
    → ConnectionPair s d
    → Moved ConnectionStates.uninitialized ConnectionStates.init ConnectionStates.tryopen
        ConnectionStates.opened m s d s' d'
    → ConnectionPair s' d'
ConnectionPair-Moved none_yet (on_src init_accepted) = src_init
ConnectionPair-Moved none_yet (on_dst init_accepted) = dst_init
ConnectionPair-Moved src_init (on_dst try_accepted) = dst_try
ConnectionPair-Moved dst_init (on_src try_accepted) = src_try
ConnectionPair-Moved src_try (on_dst ack_accepted) = dst_open
ConnectionPair-Moved dst_try (on_src ack_accepted) = src_open
ConnectionPair-Moved src_open (on_dst confirm_accepted) = both_open
ConnectionPair-Moved dst_open (on_src confirm_accepted) = both_open
ConnectionPair-Moved src_init (on_src x) = elim x [ ]
ConnectionPair-Moved dst_init (on_dst x) = elim x [ ]
ConnectionPair-Moved src_try (on_src x) = elim x [ ]
ConnectionPair-Moved dst_try (on_dst x) = elim x [ ]
ConnectionPair-Moved src_open (on_src x) = elim x [ ]
ConnectionPair-Moved dst_open (on_dst x) = elim x [ ]
ConnectionPair-Moved both_open (on_src x) = elim x [ ]
ConnectionPair-Moved both_open (on_dst x) = elim x [ ]

ConnectionReached-ConnectionPair :
    {s d : ConnectionStates.ConnectionState} → ConnectionReached s d → ConnectionPair s d
ConnectionReached-ConnectionPair start = none_yet
ConnectionReached-ConnectionPair (moved r m) =
    ConnectionPair-Moved (ConnectionReached-ConnectionPair r) m

-- For every pair of states of the ends of a connection that accepted messages of one handshake lead to:
-- both ends are open, or the connection's handshake completes in at most four steps from there. Each step
-- chooses a message that the receiving chain accepts, `Last` is set on the last message and on no
-- other, and both ends are then open; no step of such a handshake meets the panic of the switch.
pub connection_move-Completes :
    {s d : ConnectionStates.ConnectionState}
    → ConnectionReached s d
    → (s ≡ ConnectionStates.opened) × (d ≡ ConnectionStates.opened)
      ⊎ ((n : ℕ) × ConnectionCompletes s d n × n ≤ 4)
unfolding connection_move
connection_move-Completes r =
    Pair-Completes ConnectionStates.uninitialized ConnectionStates.init ConnectionStates.tryopen
      ConnectionStates.opened connection_move refl refl refl refl refl refl refl
      (ConnectionReached-ConnectionPair r)

abbrev pub ChannelReached : ChannelStates.ChannelState → ChannelStates.ChannelState → Type 0
ChannelReached =
    Reached ChannelStates.uninitialized ChannelStates.init ChannelStates.tryopen
      ChannelStates.opened

abbrev pub ChannelCompletes : ChannelStates.ChannelState → ChannelStates.ChannelState → ℕ → Type 0
ChannelCompletes =
    Completes ChannelStates.uninitialized ChannelStates.init ChannelStates.tryopen
      ChannelStates.opened channel_move

abbrev pub ChannelPair : ChannelStates.ChannelState → ChannelStates.ChannelState → Type 0
ChannelPair =
    Pair ChannelStates.uninitialized ChannelStates.init ChannelStates.tryopen ChannelStates.opened

ChannelPair-Moved :
    {m : Side × Step} {s d s' d' : ChannelStates.ChannelState}
    → ChannelPair s d
    → Moved ChannelStates.uninitialized ChannelStates.init ChannelStates.tryopen
        ChannelStates.opened m s d s' d'
    → ChannelPair s' d'
ChannelPair-Moved none_yet (on_src init_accepted) = src_init
ChannelPair-Moved none_yet (on_dst init_accepted) = dst_init
ChannelPair-Moved src_init (on_dst try_accepted) = dst_try
ChannelPair-Moved dst_init (on_src try_accepted) = src_try
ChannelPair-Moved src_try (on_dst ack_accepted) = dst_open
ChannelPair-Moved dst_try (on_src ack_accepted) = src_open
ChannelPair-Moved src_open (on_dst confirm_accepted) = both_open
ChannelPair-Moved dst_open (on_src confirm_accepted) = both_open
ChannelPair-Moved src_init (on_src x) = elim x [ ]
ChannelPair-Moved dst_init (on_dst x) = elim x [ ]
ChannelPair-Moved src_try (on_src x) = elim x [ ]
ChannelPair-Moved dst_try (on_dst x) = elim x [ ]
ChannelPair-Moved src_open (on_src x) = elim x [ ]
ChannelPair-Moved dst_open (on_dst x) = elim x [ ]
ChannelPair-Moved both_open (on_src x) = elim x [ ]
ChannelPair-Moved both_open (on_dst x) = elim x [ ]

ChannelReached-ChannelPair :
    {s d : ChannelStates.ChannelState} → ChannelReached s d → ChannelPair s d
ChannelReached-ChannelPair start = none_yet
ChannelReached-ChannelPair (moved r m) = ChannelPair-Moved (ChannelReached-ChannelPair r) m

-- For every pair of states of the ends of a channel that accepted messages of one handshake lead to:
-- both ends are open, or the channel's handshake completes in at most four steps from there. Each step
-- chooses a message that the receiving chain accepts, `Last` is set on the last message and on no
-- other, and both ends are then open; no step of such a handshake meets the panic of the switch.
pub channel_move-Completes :
    {s d : ChannelStates.ChannelState}
    → ChannelReached s d
    → (s ≡ ChannelStates.opened) × (d ≡ ChannelStates.opened)
      ⊎ ((n : ℕ) × ChannelCompletes s d n × n ≤ 4)
unfolding channel_move
channel_move-Completes r =
    Pair-Completes ChannelStates.uninitialized ChannelStates.init ChannelStates.tryopen
      ChannelStates.opened channel_move refl refl refl refl refl refl refl
      (ChannelReached-ChannelPair r)
