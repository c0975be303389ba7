-- ===== src/Lib.antt =====
-- OpenPCC: an open framework for private AI inference, in Go. Clients pay with anonymous credits,
-- find compute nodes through routers, and verify their attestations. This library models the parts
-- of the program that carry its own decisions, each in the modules named for it.
--
-- - Base: shared notation. Native numbers, integers (Base/Int), Go's `math/bits` (Base/Words), maps
--   as association lists (Base/Dict), the `(value, error)` pair as a result.
-- - Currency: anonpay/currency/value.go. The nine-bit floating point values of credits, `Exact`,
--   `Amount`, `Rounded`, and their wire forms.
-- - Nonce: anonpay/nonce.go. The timestamps of nonces, their expiry, their signed message.
-- - Locker: anonpay/noncelocking/inmem/nonce_locker.go. The nonce locker that keeps a credit from
--   being spent twice, one method one step on its map.
-- - Credit: anonpay/credit.go, unblinded_credit.go, blind_signing.go, issuer.go, payee.go. Credits and
--   the protocol that signs them blindly; the RSA scheme is a record of functions with one law.
-- - Processor: anonpay/processor.go, exchanger.go, noncelocking/ticket_locker_contract.go.
--   Transactions that spend a credit, with the caller's cancellation of their context, and exchanges
--   that trade it, over the in-memory locker.
-- - Bank: anonpay/banking/inmem/bank.go. Withdrawals, deposits and exchanges on the accounts of the
--   in-memory bank; the rounding function and the digest in an account's key are parameters.
-- - Health: router/health/check.go, history.go, grader.go, status.go. Merging the health histories of
--   a node, insertions, their statistics, and the grade that decides whether a router sends requests
--   to it. `sort.Slice` is a record of a sort and its laws (Health/Sorting).
-- - Agent: router/state/agent.go. The state of a node's agent, with the merges of node events and of
--   other routers' states.
-- - Router: router/state/router.go, node_health.go. The maps of agents and of histories, their merges,
--   and the sets of nodes that a merge reports as new or updated.
-- - Routing: router/routing_set.go, node_evaluation.go. The set of nodes to route to, with its
--   updates and queries, and the evaluation that decides on a node.
-- - Manager: router/state/manager.go. The manager merges events, checks and states into the router's
--   state (Router), has the nodes that changed evaluated by an evaluator (Routing), and keeps
--   the routing set by the outcome; its runs are lists of calls and background evaluations.
-- - Wallet: anonpay/wallet/internal/transfer/local.go, errors.go. Stacks of credits in memory.
-- - Account: anonpay/wallet/internal/transfer/blindbank.go. The wallet's side of a bank account, over the
--   contract of anonpay/banking/blind_bank_contract.go, a record of functions; its laws are a record of
--   what an account relies on (Account/Balance).
-- - Transfer: anonpay/wallet/internal/transfer/transfer.go, source.go, logger.go. The processing of a transfer
--   between two places, which are interfaces, with its log, and the results of repeated places.
-- - Payment: anonpay/wallet/payment.go and the payments of wallet.go. How a payment begins and ends, and
--   the wait group that a closing wallet waits for.
-- - Delay: delay/pool.go, pool_heap.go. The pool of delayed items, whose events (an item is added, taken by the
--   processor, sent, dropped, or drained on closing) come in any order that their conditions allow.
-- - Tags: tags/tags.go. Sets of tags with keys and values.
-- - Keys: keyrotation/period.go, gateway/keypairs.go. The periods of keys, and the search of the
--   gateway for the secret key of a request.
-- - Cmdline: cmdline/parser.go. The parser of kernel command lines, as the state machine that it is.
-- - Models: models/models.go. The table of models, and the credit amounts that it allows.
-- - Client: client.go, option.go, config.go. The settings of a client (Client), the parameters of a request from
--   request_params.go (Client/Params), the choice of the gateway's key (Client/Gateway), the ping of the
--   router (Client/Ping), the reader of a response with its refund (Client/Refund), and requests
--   (Client/Request), which take a payment from Payment and nodes from a finder. The reads that the
--   third-party decapsulation makes of a response are an argument.
-- - Finder: cached_node_finder.go, simple_node_finder.go. The cache of verified nodes, its keys and its shuffle.
-- - Ring: router/ring.go. The positions of the routers on the ring, and the nodes that a router checks.
-- - Work: work/pool.go. The workers of a pool as counts of goroutines, under any order of events.
-- - Pipeline: work/pipeline.go. The steps of a pipeline, and the outputs that they share.
-- - Api: router/api/compute_request_info.go, compute_manifest_request.go. What a client asks the router for.
-- - Retry: httpretry/httpretry.go. The body that is recorded to be sent again, and the loop over the attempts.
-- - Badge: auth/credentialing/badge.go, credentials.go. Badges and the strings that they carry.
--
-- Loops: the bit loops of Base/Words run on 64 rounds for a 64-bit word, `merge_loop` on the sum of the
-- lengths, and `search_loop` on the length of the list, `decode_loop` of Badge on the length
-- of the buffer; in each a theorem's proof shows that it is
-- enough. Recursion is structural elsewhere.
--
-- Not modelled: transport (HTTP, gossip, protobuf encoding), attestation and the other checks done by
-- third-party packages, floating point rounding, and the parts of the router, the wallet and the
-- worker pools named in no module here.
pub mod Account
pub mod Agent
pub mod Api
pub mod Badge
pub mod Bank
pub mod Base
pub mod Client
pub mod Cmdline
pub mod Credit
pub mod Currency
pub mod Delay
pub mod Finder
pub mod Health
pub mod Keys
pub mod Locker
pub mod Manager
pub mod Models
pub mod Nonce
pub mod Payment
pub mod Pipeline
pub mod Processor
pub mod Retry
pub mod Ring
pub mod Router
pub mod Routing
pub mod Tags
pub mod Transfer
pub mod Wallet
pub mod Work
