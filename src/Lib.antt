-- ===== src/Lib.antt =====
-- The relayer of Yui: a program that carries IBC packets, acknowledgements and timeouts between two
-- chains, and that runs the handshakes of connections and channels and the upgrades of channels.
--
-- The parts and their files:
--   Ibc          the data of ibc-go that core/ reads and sends; `Ibc.Functions` collects the functions
--                of ibc-go and of the codec, which are not in the repository, as a parameter
--   Chain        the interfaces of a chain and its prover (core/chain.go, core/provers.go), as a
--                parameter: a record of calls on a world `W`
--   PathEnd, Msg core/pathEnd.go, core/ics24.go, core/msg.go: a path's end and the messages it builds
--   Packet       core/types.go: lists of packets
--   Headers      core/headers.go: the latest finalized headers of both chains
--   Query        core/query.go: queries of both chains, proofs, and the settlement checks
--   RelayMsgs    core/relayMsgs.go: `Send`, which submits the messages of a round in batches
--   Loop         core/utils.go: `runUntilComplete`; and the library `retry`, as a parameter
--   Durations    the int64 of Go, for the time offset of a transfer and for chains/tendermint
--   Events       core/utils.go: packets and acknowledgements from the events of a transaction
--   Sync         core/config.go: identifiers from events are written into the path configuration
--   Handshake    core/connection.go, core/channel.go: one step of a handshake, and the loop around it
--   Upgrade      core/channel-upgrade.go: the decision on the next actions of a channel upgrade, the step
--                around it, and the commands that begin, execute and cancel an upgrade
--   Strategy     core/naive-strategy.go: what is to be relayed, and the messages for it
--   Service      core/service.go: one round of the relay service, and its endless loop (Service/Start)
--   Clients      core/client.go: the creation and the update of the clients of two chains
--   Transfer     core/packet-tx.go: a token transfer
--   Finalized    core/send.go: the result of a message in a finalized block
--   Paths        core/path.go, core/strategies.go: the table of paths
--   Config       config/core.go, config/config.go, config/chain.go: the path configuration that `Sync`
--                writes to, and the list of chains
--   Tendermint   chains/tendermint/msg.go, GetMsgResult of chains/tendermint/chain.go: the result of a
--                message, from the events of its transaction; Tendermint/Refresh is the refresh check of
--                chains/tendermint/prover.go and the validation of its configuration, and
--                Tendermint/Unfinalized the search for unrelayed packets in query.go
--   Mock         provers/mock/prover.go: a prover, as an implementation of the prover's half of `Chain`
--   Scenario     two concrete chains; `Runs` computes on them, `Tests` has the theorems at them
--
-- How the code is modelled. A call that acts on the outside is an `Action W A = W → Outcome A × W`: it
-- returns a value, returns an error, or panics (Base/Calls). A function of the source has the same
-- name here, in snake case; its receiver and the chains are arguments. A pointer that the source
-- writes through is a result here. Two goroutines of an `errgroup` run one after the other. The loop
-- of `runUntilComplete` runs against a list of what its `select` meets, so it needs no fuel: the list
-- may be of any length, and when it is used up the loop is still waiting. All other loops run over
-- lists. Go's `uint64` wraps at 2^64 where the code adds: in `Send`, in the timeouts of a transfer, in
-- the wait for finality, and in ParseUint; sequences, heights and times are otherwise numbers without
-- a bound, since they are only compared. The time offset of a transfer, the times of event logs and
-- the durations of the refresh check are int64, written out in Durations. The endless loop of the
-- service runs against a list of its waits. A Go map of paths or of keys is a list of entries;
-- `Paths.Table` and `Config.Keys` show that the order does not matter. The texts of events are lists
-- of code points where they are parsed.
--
-- Not modelled: the texts around errors, logs, traces and metrics; the command line; the reading and
-- the writing of the configuration file, and the construction of chains from it; of the tendermint
-- module, the calls of a node and the light client of its prover; the fabric chain module and the
-- light clients; a nil client state as the answer of a query, and the packing errors of the messages
-- of ibc-go.
pub mod Base
pub mod Ibc
pub mod PathEnd
pub mod Msg
pub mod Packet
pub mod Chain
pub mod RelayMsgs
pub mod Query
pub mod Upgrade
pub mod Events
pub mod Durations
pub mod Headers
pub mod Loop
pub mod Sync
pub mod Handshake
pub mod Strategy
pub mod Service
pub mod Paths
pub mod Config
pub mod Clients
pub mod Transfer
pub mod Finalized
pub mod Tendermint
pub mod Mock
pub mod Scenario
pub mod Tests
pub mod Runs
