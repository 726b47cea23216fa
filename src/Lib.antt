-- ===== src/Lib.antt =====
-- Verification of ofgp-core, the node of a gateway between block chains: a cluster of nodes agrees on
-- blocks of transactions that move assets from one chain to another.
--
-- The parts of the program, and the files about them:
--   - cluster/params.go, cluster/cluster.go: the nodes, the quorum sizes and the leader of a term, package
--     variables there and the record `Cluster` here. Cluster/Defs, Init and Leader have the functions, and
--     Cluster/Quorum, Invariant, Restored and Start what they guarantee.
--   - proto/braft.proto, proto/pbtypes_ext.go, util/hash_utils.go: the messages (Proto/Types), their methods
--     (Proto/Blocks, Proto/Votes), the functions that make blocks (Proto/Create), and the fields that make up
--     an identifier (Proto/Feed, Proto/MsgIds, with Proto/Ids and Proto/KeyOrder about them). Proto/Convert takes
--     the transactions of Bitcoin and Ethereum over, with Payouts, Exact and Overpaid about their amounts.
--   - primitives/dbops.go: the database of a node, a record with a field for each key (Db/Defs), and the
--     chain of committed blocks in it (Db/Chain). What is kept beside the consensus is over the bytes of the
--     store (Db/Settings), with Tables about it and Keys about the keys. util/base.go has the bytes of an integer
--     (Util/Codec, with Util/Order about their order).
--   - primitives/txstore.go: the pool of watched transactions and of the gateway's own (TxStore/Defs, Pool,
--     Heartbeat), with TxStore/Committed, Queries and Timeouts about it. TxStore/Validate is `validateTxs` of
--     primitives/blockstore.go, which decides with the pool and the chains, and TxStore/Accepted is about it.
--   - primitives/blockstore.go: the consensus. A handler of a message takes the cluster and the state, which
--     is the database and two caches, and returns the state and the events that it defers, or `none` for a
--     panic. BlockStore/Defs has what the handlers share, such as `commitBlockWithCheck`; Votes has
--     `handlePrepareMsg` and `handleCommitMsg`, Init `handleInitMsg`, Accuse the two accuses. BlockStore/Commit,
--     Keeps, Advance, First, Progress, Sound, SoundInit, Rounds, Accuses and Safety are about them: `Step`
--     in Advance is one handled message, `Steps` any run of them.
--   - accuser/accuser.go: when a node accuses its leader (Accuser/Defs, with Accuser/Pace about it).
--   - node/msg_validation.go: the checks of a message before it reaches the block store. Node/Check has them
--     in Basic, Votes, Packs and Requests, which end in a `Check` (Result): a panic, a refusal, or the message
--     with the identifiers of its blocks computed anew. Certificates, Shared and Linked are about them.
--   - node/leader.go: how a node becomes the leader and what it proposes (Node/Leader/Defs, Propose), and
--     its loop `Run` as a step (Loop). Pool, Steps and Safe are about the votes; Supported is about a proposal
--     at its followers.
--   - node/node_sign.go: the collection of signed results (Node/Signing/Defs, Save), with Counts, Quorum, Kept and
--     Once about it.
--   - node/sync_daemon.go: the check of a block of a sync response (Node/Sync/Check) and the two ways to apply a
--     response (Defs), with Vouched about the check. BlockStore/Serve is the side that answers, `genSyncUpResponse`
--     of primitives/blockstore.go, with Node/Sync/Served about its answers.
--   - distribution/proposal.go, distribution/dbops.go: the proposals to pay out assets (Distribution/Defs);
--     Spec has what they promise as a replay on functions, which Load and Refines show, and Replaced which
--     payment is made.
-- Base has what they share, Samples and Node/Samples the values of the tests, and a Tests file in each part its theorems and
-- functions at concrete inputs.
--
-- How the model stands to the code:
--   - Terms, heights, identifiers and amounts are natural numbers, as the checks of node/msg_validation.go and
--     the conversions from the chains make them; a term that an int64 cannot hold panics (`int64_limit`). The
--     height and the term -1 of an empty state are `none`. Util/Codec, Db/Settings and Proto/Convert, where the
--     sign and the width matter, have ℤ for an int64 and keep the wrap-around of a uint64.
--   - A Go map is an association list. Where the code iterates over a map, the order is that of the list, and
--     theorems hold for every list.
--   - Time is an argument; a lock has no state; a channel is the operation that its receiver does. Where the
--     code starts a goroutine for each message, as for `doSave`, the messages are handled one after the other.
--   - A handler of the block store has a message that passed the checks of node/msg_validation.go: a digest that
--     is nil, which they refuse, is the empty list.
--   - The hash function, the answers of the watchers of the chains and the success of the key store are
--     parameters, as are the verification and the making of a signature and the sending of a transaction to
--     its chain. Nothing is assumed of them, but where a theorem says that the signer works.
--     LevelDB is a record with a field for each key, and under Db/Settings any store that reads what was
--     written.
--   - Loops are structural recursion. `LeaderNodeOfTerm` has as much fuel as there are nodes, which
--     is enough where one of them is normal; `strconv` has a digit for each unit of its fuel, which is one more
--     than the number.
--   - A run of the handlers has one cluster: between two reconfigurations, that is. Synchronised blocks are
--     the function `commit_sync_block`, not a step.
--
-- Not modelled: the validation of signing requests per chain (`handleSignTx`), the timers of join and leave
-- requests, the loop over the peers of node/sync_daemon.go, and the making of the transactions of each chain in
-- node/leader.go; in primitives/dbops.go the accuse records, the snapshots and the values in JSON or decimal;
-- the connections, the HTTP and RPC servers, LevelDB, the key store, logging and the
-- prices, which are input and output.
mod Base
mod Samples
pub mod Cluster
pub mod Proto
pub mod Db
pub mod Distribution
pub mod Node
pub mod TxStore
pub mod BlockStore
pub mod Accuser
pub mod Util
