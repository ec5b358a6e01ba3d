-- ===== src/Lib.antt =====
-- Verification library of the node's core: transactions, the set of unspent outputs, the block
-- graph, its colouring, the memory pool, the parallel scheduler, emission, rewards, gas, the
-- committed state and its manager, and the status of a transaction.
--
-- A transaction spends outputs of the unspent set and creates others. The memory pool checks it on
-- the set and on what the state manager answers, and keeps it by priority; a block takes it, after
-- a coinbase that pays the reward of the block's height and the fees. The scheduler puts the
-- transactions of a block into groups by the keys that they read and write. Blocks stand in a graph
-- by the links to their parents, and the colouring of the graph chooses among them by their blue
-- scores. The state manager applies a block to the unspent set and to a tree that commits to the
-- outputs, keeps a snapshot for each height and undo data for each block, and takes blocks back.
-- The modules follow these parts:
--
--   Emission      klomang-core/src/core/consensus/emission.rs, economic_constants.rs
--   Reward        klomang-core/src/core/consensus/reward.rs
--   Transaction   klomang-core/src/core/state/transaction.rs, crypto/schnorr.rs, crypto/hash.rs
--   Utxo          klomang-core/src/core/state/utxo.rs
--   Scheduler     klomang-core/src/core/scheduler/parallel.rs, state/access_set.rs
--   Dag           klomang-core/src/core/dag/mod.rs, dag/block.rs, dag/anticone.rs
--   Ghost         klomang-core/src/core/consensus/ghostdag.rs
--   Pow           klomang-core/src/core/pow/hash.rs, pow/miner.rs
--   Mempool       klomang-core/src/core/mempool.rs
--   Verkle        klomang-core/src/core/state/v_trie.rs, state/storage.rs
--   State         klomang-core/src/core/state_manager.rs, state/mod.rs, vm/executor.rs
--   Gas           klomang-core/src/core/vm/gas_meter.rs
--   Lifecycle     klomang-node/src/mempool/status.rs
--   Crypto        what the program takes from the crates blake3 and k256, as a parameter
--   Prelude       maps, sets, results, bytes, sorting and the tests on numbers that the parts share
--   Samples       a digest, transactions and blocks for the tests
--
-- The module of a part holds its state as records and one definition for each function of the
-- source under the source's name; the child modules are named for what they prove, and Tests holds
-- runs at concrete inputs. A method that changes its object takes the state and returns its result
-- beside the state after it, so that an early return gives the state as it is then. A loop of the
-- source that returns early is a function of its own.
--
-- Numbers: hashes are the numbers of their bytes, so that the order of hashes is the order of
-- numbers. u64 and u128 are natural numbers; a cast and a plain addition that can wrap are written
-- with the remainder, checked and saturating operations with their tests. The balance of the gas
-- meter is an integer. Hash maps and hash sets are association lists and lists that are used
-- through their lookups; no result rests on the order of their iteration.
--
-- The tree of the state is its storage with a cache of commitments. The arithmetic of the curve is
-- a parameter, on numbers for scalars, commitments and digests; a commitment to at most 256
-- coefficients cannot fail in the source, so it is total here, and with it the roots and the
-- creation of a tree. The height of a node is the size of a key less its depth. A contract is a run
-- of the host functions of the executor, reads, writes and self-destructions, that its engine asks
-- for; a read that the tree refuses stops it. An index out of range is the error `panicked`.
-- Heights stay below 2 ^ 64, and the change of the supply in a block within i128.
--
-- Fuel: the searches of the graph run on two rounds more than there are parent links, or child
-- links, the scheduler on one round for each transaction, and the root of a block's transactions on
-- one for each hash; out of fuel they return none. The other loops are structural, with mining over
-- all nonces of 64 bits.
--
-- Not modelled: the polynomial commitments below the tree and its proofs; the engine of contracts,
-- whose access scan is an argument of the access sets; how the state manager asks the consensus
-- before it applies a block; the adjustment of the difficulty, which is floating point; block
-- production, the node's storage and the network. Texts of errors are constructors.
pub mod Prelude
pub mod Emission
pub mod Gas
pub mod Crypto
pub mod Transaction
pub mod Utxo
pub mod Dag
pub mod Ghost
pub mod Samples
pub mod Reward
pub mod Pow
pub mod Scheduler
pub mod Mempool
pub mod Verkle
pub mod State
pub mod Lifecycle
