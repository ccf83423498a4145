-- ===== src/Lib.antt =====
-- A model of async-substrate-interface, a Python client for nodes of Substrate chains.
--
-- The program. A caller makes JSON-RPC requests through AsyncSubstrateInterface or
-- SubstrateInterface. A RequestManager collects the responses to a batch of requests; a Websocket
-- gives each request its id, sends it, waits for its response, and makes the connection anew when
-- it is lost; RetryAsyncSubstrate and RetrySyncSubstrate move on to another chain when a
-- connection is lost for good. Extrinsics are signed, each with the next nonce of its account, and a
-- receipt finds out how an extrinsic went. Blocks are decoded by the runtime of their time.
-- Runtimes that have been read are kept in a RuntimeCache, made of four LRUCaches; the results of
-- functions are kept in an LRUCache too. Storage keys are generated from the parameters of a query,
-- and the keys of a query map are decoded back.
--
-- The files. Each file names the code it is about, with paths from the repository's root.
-- - Cache.Lru: class LRUCache of async_substrate_interface/utils/cache.py. `set` and `get` are the
--   methods; the OrderedDict is an association list in its order. Invariant, Reads,
--   Entries and Recency hold the lemmas, the last with the history that a cache is a window of.
-- - Cache.Fetcher: class CachedFetcher of the same file. A task is in one of a few places, and what it
--   runs between two awaits is a step; Single and Orphan are about the steps of many tasks.
-- - Runtimes: class RuntimeCache of async_substrate_interface/types.py: `add_known_versions`,
--   `add_item` and `retrieve`, with `bisect_right` and the sort by their clauses.
-- - Requests: class RequestManager of the same file, with a function for each method.
-- - Websocket: class Websocket of async_substrate_interface/async_substrate.py, and get_next_id of
--   async_substrate_interface/utils/__init__.py. State has an operation for what runs between two
--   awaits: `send`, `unsubscribe`, `retrieve`, `recv` (the method _recv), `take_next` and
--   `transmit` (the two parts of _start_sending), `reconnect` (what _handler does to the state).
--   Handler has what _handler decides when a task has ended, and calling itself is a new run.
--   Delivery has the runs, sequences of these operations in any order; Ids and Calls the rest.
-- - Retry: async_substrate_interface/substrate_addons.py. Sync and Async have `_retry` and
--   `_reinstantiate_substrate` of the two classes, Sync.Create the constructor. The base class is
--   an interface, the record Base: a method may do anything to the object.
-- - Storage: async_substrate_interface/utils/hasher.py (Hasher),
--   async_substrate_interface/utils/storage.py (Key, with the objects of StorageKey in Object) and, in
--   async_substrate_interface/utils/decoding.py, the keys of query maps (QueryMap) and the split of
--   tuple types (TupleType).
-- - Receipts: async_substrate_interface/utils/receipt.py (Events) and class AsyncExtrinsicReceipt of
--   async_substrate_interface/async_substrate.py: `process_events` with its loop, and in Block the
--   search for the extrinsic and its events.
-- - Link and Rpc: `_process_response` and `_make_rpc_request` of the same file, over a RequestManager of
--   Requests and an interface for the websocket. Rpc has a function for each loop, Induction the
--   induction over them, and the other files what they prove.
-- - Extrinsics: `submit_extrinsic` of the same file, as it reads the messages of its subscription.
-- - Pages: `query_map` of the same file, up to the decoding of what the node answers, and class
--   AsyncQueryMapResult. Paging says what is assumed of the node, Iterate follows the iteration, and
--   Whole has what is read in all.
-- - Request: `rpc_request` of the same file, with what it makes of the errors of the node.
-- - Runtimes.Load: `init_runtime` and `get_runtime_for_version` of the same file, with `get_block_hash`
--   and `get_block_number`, over the RuntimeCache of Runtimes. Keeps is about the caches of
--   `get_block_number`, Again about a second call, and Sound, Found and Versions about the versions
--   of the runtimes, where the record Chain says what is assumed of the node.
-- - Registry: `load_registry_type_map` of async_substrate_interface/types.py. Rounds has the loop of its
--   second pass, Rule the rule that names a type, Ruled and Least what the names are, and Names the
--   map from the names back to the types.
-- - Scale: `_encode_scale` of the same file, which reads the names of Registry.
-- - Signing: the making of a signed extrinsic in async_substrate_interface/async_substrate.py: Nonces has
--   `get_account_next_index` and `supports_rpc_method`, Payload `generate_signature_payload`, Extrinsic
--   `create_signed_extrinsic` and `create_unsigned_extrinsic`, Hex the digits of bytes.
-- - Blocks: Decode has `decode_block` of the same file, Digest what it makes of the digest, with the
--   author of a block, Retrieve `_get_block_handler`, `get_block` and `get_block_header`, Subscribe
--   `subscribe_block_headers`.
-- - Json: the Python values that decoded events and responses are made of.
-- - Prelude: the names that all share, association lists, lists without repetition.
--
-- Bounds and fuel. Python's integers are natural numbers here. The loop that draws an id has fuel
-- for 998 draws, the length of the cycle of ids, which is enough while fewer ids are in use. The
-- fuel of `retry` counts the nested calls of `_retry`; with finite lists of chains, one more than
-- the chains left is enough. The fuel of `poll` counts the rounds of the request loop; it is enough
-- when it is above the number of pauses until all is answered. The fuel of `iterate` counts the items
-- that come: one more than the keys is enough. The fuel of `rpc_request` counts its attempts; one more
-- than those that the node fails for want of a runtime is enough. The rounds of the second pass of
-- `load_registry_type_map` have fuel for two more than there are types, which is enough since each
-- round but the last names a type. All other loops are recursions on a list.
--
-- Parameters. The JSON library, the random letters of ids, the hash functions, the SCALE codec,
-- the metadata, and what a node answers are parameters; what is assumed of them is a field of a
-- record (Net, Hashes, Codec, Decoder, Chain, Prompt, Counter, Paged, Client, Node) or a
-- hypothesis of a theorem. The order in which a set lists its items is one too.
--
-- Not modelled: timers and the shutdown of a websocket, the disk caches, the other queries of
-- storage, batches and multisignatures, the lookups in metadata, the decoding of values, and the
-- copies of the asynchronous methods in async_substrate_interface/sync_substrate.py. Logging is left
-- out throughout.
pub mod Prelude
pub mod Cache
pub mod Runtimes
pub mod Requests
pub mod Websocket
pub mod Retry
pub mod Storage
pub mod Json
pub mod Receipts
pub mod Extrinsics
pub mod Link
pub mod Rpc
pub mod Pages
pub mod Request
pub mod Registry
pub mod Signing
pub mod Blocks
pub mod Scale
