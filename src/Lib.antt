-- ===== src/Lib.antt =====
-- The chain of checkpoints of this library, its local chain and their updates, the transaction graph
-- and its canonicalization, and the checks of the MWEB output PMMR.
--
-- The program keeps its view of the best chain as a linked list of blocks, a `CheckPoint`
-- (`crates/core/src/checkpoint.rs`). A node has a height and a hash, the data from which the hash
-- comes, a pointer to the node below and a skip pointer to an earlier node, by which searches take
-- few steps. A chain may have gaps. `CheckPointEntry` (`crates/core/src/checkpoint_entry.rs`) reads a
-- chain with a placeholder below each block whose data names a parent that the chain does not have.
-- `LocalChain` (`crates/chain/src/local_chain.rs`) is a chain that a wallet updates: an update is
-- merged by `merge_chains`, which walks the entries of both chains from their tips down, and each
-- change is a `ChangeSet` that can be stored and applied again. `ChainPosition`
-- (`crates/chain/src/chain_data.rs`) orders transactions by their place in the chain, and
-- `SpkIterator` (`crates/chain/src/spk_iter.rs`) derives the scripts that a wallet watches. A `TxGraph`
-- (`crates/chain/src/tx_graph.rs`) keeps the transactions of a wallet, what spends what, and when and
-- where each was seen; a `CanonicalTask` (`crates/chain/src/canonical_task.rs`) decides which of
-- them count, asks which of their anchors are in the chain, and is run by `LocalChain::canonicalize`.
-- MWEB outputs come from peers with a leafset, a bit for each leaf of a PMMR
-- (`crates/mweb/src/p2p.rs`), and are checked against it (`crates/mweb/src/pmmr.rs`).
--
-- The modules:
--   Prelude            tests, lists, results, and `BtreeMap`, a map as a list sorted by its keys
--   Core.BlockId       `BlockId`
--   Core.ChainQuery    the trait `ChainQuery` of `crates/core/src/chain_query.rs`
--   Core.Merge         the trait `Merge` of `crates/core/src/merge.rs` and its instances
--   Core.Checkpoint    `CheckPoint`, `skip_index`, `ancestor_by_index`, `walk_to_floor`, `get`; its
--                      children are `Range` (`range`, `floor_at`, `floor_below`), `Iter`
--                      (`CheckPointIter`), `Build` (`new`, `push`, `extend`, `from_blocks`,
--                      `insert`), `Time` (`median_time_past`), and the walks by `prev` alone
--                      (`Ancestor`, `Floor`)
--   Core.Entry         `CheckPointEntry` and its iterator
--   Chain.ChangeSet    `ChangeSet`
--   Chain.LocalChain   `LocalChain` and its operations; its children are `Merge` (`merge_chains`,
--                      `apply_update`), `Header` (`apply_header`, `apply_header_connected_to`),
--                      `Checked` (`_check_changeset_is_applied`) and `Canonicalize`
--   Chain.ChainPosition  `ChainPosition` and its order
--   Chain.Tx           what is read of the library's transactions
--   Chain.TxGraph      `TxGraph` and its queries; its children are `ChangeSet`, `Insert`
--                      (`insert_tx`, `insert_txout`), `Seen` (first seen, last seen, evicted),
--                      `Apply` (anchors, batches, `TxUpdate`, change sets) and `Conflicts`
--   Chain.Canonical    `Reason` (`CanonicalReason`), `Descend` (`TxDescendants` with the closure of
--                      `mark_canonical`), `Mark` (`TxAncestors` and `mark_canonical`), `Task`
--                      (`CanonicalTask`), `View` (`Canonical` of `crates/chain/src/canonical.rs`),
--                      `ViewTask` (`crates/chain/src/canonical_view_task.rs`)
--   Chain.SpkIter      `SpkIterator`
--   Chain.SpkTxOut     `SpkTxOutIndex` of `crates/chain/src/indexer/spk_txout.rs`; its child `Steps`
--                      has sequences of its operations
--   Chain.Balance      `Balance` of `crates/chain/src/balance.rs` and the sums of its amounts
--   Mweb.Leafset       `MwebLeafset`, `bitset_test`, `unspent_leaf_indices`, the bounds of
--                      `crates/mweb/src/limits.rs`
--   Mweb.Pmmr          positions, heights, children, peaks and hashes of the nodes of the PMMR; its
--                      child `Verify` has `verify_leafset`, `verify_leafset_at` and the checks that
--                      `verify_utxo_batch` makes before it compares roots
--   Mweb.CoinDb        `MwebCoin`, `MwebCoinDatabase` and their `ChangeSet`, of
--                      `crates/mweb/src/coin_db.rs` and `crates/mweb/src/changeset.rs`; its child
--                      `Session` has sequences of the operations, `Stored` the sessions between
--                      which what was staged is saved
--   Mweb.Sync          the pure parts of `crates/mweb/src/mweb_sync.rs`: `SyncState`, the dating of
--                      leaves (`Dated`) and the sampled heights (`Heights`)
--   FileStore          `Store` and `EntryIter` of `crates/file_store/src`; its children are `Bytes`
--                      (reads and writes at an offset), `Entries` (a dump), `Reload` (create, append,
--                      load) and `Enough` (the fuel of a dump); `Mweb.CoinDb.Persisted` has the coin
--                      database over a store
--   Chains             a chain of five headers and a reorganisation, for the tests
--
-- How the code is written here:
--   - An `Arc` to a node is the node, since nodes never change. Functions that walk a chain are
--     structural recursions on the node, by `prev` and by `skip`, so no fuel is needed.
--   - `eq_ptr` compares addresses: it is an argument of `merge_chains`, and what is asked of it is
--     that equal addresses are equal nodes.
--   - Heights, indices and hashes are numbers. A `u32` is not wrapped where the code adds 1 to a
--     height or an index: heights ascend and an index is at most the height. `nth` has the bound of
--     a `u32` written out, and `skip_index` its wrapping subtraction.
--   - A method that changes `self` gives the new `self`; a `?` gives the `self` of before.
--   - A panic is `none`. A debug assertion is left out, as release builds leave it out.
--   - A `u64` of the PMMR is a number, and an unchecked addition, subtraction or shift wraps. The
--     loops of `index_height` and `peak_indices` halve a `u64`, so they have 64 rounds.
--   - BLAKE3, the derivation of a descriptor's scripts, the witness version of a script, the order
--     of anchors and the constant `COINBASE_MATURITY` of the library are arguments.
--   - A transaction's id is a number that stands for its hash, so a full transaction that the graph
--     has under an id has the outpoints of any other with that id: a hypothesis where it is needed.
--     Of a witness the order and the size are read, so it is those.
--   - A hash map or set is an ordered one, since the program does not depend on the order in which
--     it is read; a map by outpoint is a map of maps.
--   - The order of transactions in a change set is that of the library, an argument.
--   - A run of `TxDescendants` has fuel for one expansion for each entry of the index of spends and
--     its root, a run of `TxAncestors` one for each node of the graph, `canonicalize` one question
--     for each anchored transaction.
--   - An array of 32 bytes, as the id of an output, is a number: its order is that of the bytes.
--   - A file is its bytes and the offset of the handle, and the reader's buffer is not seen. The
--     encoding of bincode is an argument: an encoding is read back whole whatever follows it, the end
--     of the file is an error that reads nothing, and what is read has a byte at least. A dump has
--     fuel for each byte of the file and one more.
--     The sampling of heights has fuel for each height up to the tip.
--   - The data of a block is any type with the trait `ToBlockHash`.
--
-- A chain is linked (`IsLinked`) where indices count up from the base, heights ascend and each skip
-- pointer is the ancestor at the skip index. It is valid (`IsValid`) where, besides, each hash is
-- that of the data and no block names a parent other than the block right below it.
--
-- Not modelled: `Drop` of a checkpoint, which only frees memory; the keychain index and the graph with an index; the fees and
-- the other walks of the graph; storage in a database of SQL and the clients of remote services, which
-- are input and output; of the PMMR, `MemMmr` and the proof of a segment.
pub mod Prelude
pub mod Core
pub mod Chain
pub mod Mweb
pub mod FileStore
pub mod Chains
