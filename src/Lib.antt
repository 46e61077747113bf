-- ===== src/Lib.antt =====
-- sando-rs: a model of the bot's own logic (bot/src), with its theorems.
--
-- Base holds the shared names: Boolean tests, lists, computations that may panic, big-endian
-- bytes. Library holds the functions of the Ethereum libraries that the bot calls, as parameters.
--
-- Packed models bot/src/utils/encode_packed.rs (`pack`, `encode_packed`); Packed/Laws its
-- theorems. Swap models the encodings of amounts at the end of
-- bot/src/utils/tx_builder/sandwich/v2.rs and v3.rs: Swap/V2 and Swap/V3 hold the functions of the
-- two files under their own names, Swap/Scale and Swap/Rounding what the loop in both of them
-- finds and what rounding keeps. Labels models the tables of jump labels and `_find_swap_type`;
-- Labels/Gates lists the gates of contract/src/sandwich.huff, Labels/Dispatch models how it takes
-- a call. Payload models the functions `create_payload_*` and `create_multi_payload_*`;
-- Payload/Layout says how the contract reads a payload. Block models bot/src/types/block.rs,
-- `calculate_next_block_base_fee` of bot/src/utils/mod.rs and the update of the oracle in
-- bot/src/runner/oracles.rs. Pool models bot/src/cfmm/pool.rs, Constants the values of
-- bot/src/utils/constants.rs. Search models `juiced_quadratic_search` and the loop of
-- `create_optimal_sandwich` of bot/src/simulate/make_sandwich.rs: Search/Intervals the bounds of a
-- round and the highest revenue, Search/Rounds what a round does, Search/Loop, Search/Nothing and
-- Search/Optimal the theorems. Bribe models `calculate_bribe_for_max_fee` of
-- bot/src/runner/bundle_sender.rs, Recipe the recipe that it reads. Bundle models `send_bundle`
-- and `add_recipe` of the same file and `construct_bundle` of bot/src/relay.rs; Bundle/Sent says
-- what is sent, Bundle/Mega models `make_mega_sandwich`. Salmonella models
-- bot/src/simulate/inspectors/is_sando_safu.rs, AmountOut `get_amount_out_evm_v2` of
-- bot/src/simulate/helpers.rs. Exchange models bot/src/cfmm/dex.rs, Exchange/Found and
-- Exchange/Synced say which pools it finds. AccessList models
-- bot/src/simulate/inspectors/access_list.rs, AccessList/Convert `convert_access_list` of
-- bot/src/simulate/helpers.rs, StateDiff `get_from_txs` and `extract_pools` of
-- bot/src/utils/state_diff.rs, StateDiff/Cache its `to_cache_db`: StateDiff/Cache/Slots is about
-- the slots of one account, StateDiff/Cache/Before about all.
--
-- Simulate holds the machine that the simulations run on, the errors and the ingredients;
-- Simulate/Queries models the calls of bot/src/simulate/helpers.rs, Simulate/Meats, Simulate/Legs,
-- Simulate/Swaps and Simulate/Sanity model `sanity_check` of bot/src/simulate/make_sandwich.rs,
-- and Simulate/Revenue its `evaluate_sandwich_revenue`. Simulate/Outcomes is about what a
-- computation returns, Simulate/Hashes about the order of the victims' transactions, Simulate/Gone
-- and Simulate/Recipes about recipes, Simulate/Skipped about inputs that are encoded as zero,
-- Simulate/Fees about the priority fee that is set, Simulate/Tips about a tip above the base
-- fee. Runner models what `run` of
-- bot/src/runner/mod.rs does with the transactions of the mempool's stream, Runner/Pending and
-- Runner/Earning are about the recipes that wait, Runner/Aimed about the bundles that are sent.
-- BlockTask models what `start_block_oracle` of bot/src/runner/oracles.rs does with a block and
-- `update_searcher_nonce` of bot/src/utils/tx_builder/sandwich/mod.rs: BlockTask/Handled is about
-- a block with which it goes on, BlockTask/Kept about any, BlockTask/Recovery about the request
-- for weth. System puts the tasks together as steps in any order, System/Inv says what every step
-- keeps, and System/Invariant that it does. Dust models `BotState::new` of
-- bot/src/runner/state.rs, Dust/Found says what it finds. PoolSync models how the bot comes to its
-- pools: the start of bot/src/main.rs, the map of `Bot::new` of bot/src/runner/mod.rs, and
-- `start_add_new_pools` of bot/src/runner/oracles.rs; PoolSync/Map is about the map,
-- PoolSync/Known about the pools that it knows, PoolSync/Missed about those it misses. CacheDb is
-- the interface of revm's `CacheDB` with its laws, CacheDb/Model an instance of it. Backend models
-- the task of bot/src/forked_db/global_backend.rs as a state and rounds of its loop:
-- Backend/Counts counts keys and listeners, Backend/Inv holds the invariant, Backend/Polls the
-- loop over the fetches, Backend/Rounds the rounds, Backend/Answers the answers from the cache.
-- ForkDb models bot/src/forked_db/fork_db.rs and fork_factory.rs, with ForkDb/Reads and
-- ForkDb/Forks; ForkDb/Inject models what bot/src/simulate/helpers.rs puts into a factory, and
-- ForkDb/Inject/Seeded says what the forks then read.
--
-- How the parts interact: a payload takes an amount through the encoding of Swap, a label from
-- Labels, and puts the fields together with Packed. The block oracle gives the base fee of the
-- block that a bundle is for, which the bribe reads. The check of a sandwich prices each swap with
-- the calls of Simulate/Queries, encodes it with Swap and Payload, runs it under both inspectors,
-- and gives the recipe, whose bribe and bundle Bundle makes. The recipes that wait are made into
-- the ingredients of a mega sandwich, which is searched and checked in the same way. Runner puts
-- these together: the diffs of a transaction give the pools, each pool a sandwich, and one with
-- revenue is kept and sent. System lets these tasks and the block task go on in any order: a block
-- clears the recipes and moves the oracle, of which a transaction reads the next block once, and
-- its mega sandwich is made of the recipes that wait at that time. A simulation reads the state
-- through ForkDb, which asks Backend for what it lacks.
--
-- Numbers are native. A `U256` operator that overflows, a subtraction below zero, a division by
-- zero and an `unwrap` on nothing are the panic of `Checked`; the primitive widths panic in the
-- same way, with overflow checks on. Loops over a range are structural recursion on the rounds
-- left. The search takes fuel, one unit for a round; the theorem on it shows that 13 more than the
-- upper bound are enough. What a simulation reports is a function of the input, and a parameter of
-- the search, for which `create_optimal_sandwich` has `evaluate_sandwich_revenue` on its fork.
-- Loops over ingredients, transactions and fetches are structural recursion on the list or on the
-- number of indices left.
--
-- Not modelled: network requests and subscriptions, logging, signing, the EVM itself, generated
-- bindings, and the parts that the libraries implement. The EVM, the ABI coder and the wallet are
-- fields of a record that the definitions take. A round of the backend is modelled with its
-- channel open, and what the provider answers is given with the round. The machine on a fork is
-- given for a database in front of it, as is what `run` reads for a transaction. Runner takes the
-- tasks of a transaction one after another, System each as one step.
pub mod Base
pub mod Library
pub mod Constants
pub mod Packed
pub mod Swap
pub mod System
pub mod Block
pub mod Pool
pub mod Labels
pub mod Payload
pub mod Search
pub mod PoolSync
pub mod Recipe
pub mod BlockTask
pub mod Bribe
pub mod Salmonella
pub mod AmountOut
pub mod Dust
pub mod Exchange
pub mod StateDiff
pub mod AccessList
pub mod CacheDb
pub mod Backend
pub mod ForkDb
pub mod Simulate
pub mod Bundle
pub mod Runner
