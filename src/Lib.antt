-- ===== src/Lib.antt =====
-- Verification of tobs, an exporter of Telegram chats.
--
-- The parts of the program and how they interact. A sharded export
-- (src/telegram_sharded_client.py) decides its identifier range, cuts it into chunks whose sizes
-- the hot zones (src/hot_zones_manager.py) determine, and lets several workers fetch the chunks
-- from a shared task queue into message queues, which a collector joins and sorts. The
-- asynchronous pipeline (src/export/pipeline.py) takes the messages that a fetch yields,
-- processes them concurrently and writes them in order. Media of the messages go to the download
-- queue (src/media/download_queue.py), whose workers run beside the export. The input peer cache
-- (src/input_peer_cache.py) stands between the program and the resolution of entities. An export
-- without shards can take its messages from a prefetching producer
-- (src/export/prefetch_processor.py); the exporter (src/export/exporter.py) processes them in
-- batches, writes their texts to the file of the chat, and passes its state to the cache manager.
-- The messages come from the client (src/telegram_client.py), page by page. The cache manager
-- (src/core/cache.py) keeps what the parts remember from one run to the next, and the connection
-- manager (src/core/connection.py) runs operations in task pools with retries and time-outs. Both
-- loops of an export ask the shutdown manager (src/shutdown_manager.py) whether to stop. Apart
-- from these stand the batching of log messages (src/logging/log_batcher.py), the clean-up of old
-- session files (src/session_gc.py) and the choice of workers for a datacenter
-- (src/telegram_dc_utils.py).
--
-- Files. Prelude: numbers, tests, lists and permutations that all parts share. Dict: Python's
-- dictionaries. Shard.Zones: HotZone, HotZonesManager.get_optimal_chunk_size,
-- get_chunk_size_for_density and analyze_and_update_hot_zones. Shard.Chunks: the loop of step 3
-- of fetch_messages. Shard.Fetch: _fetch_chunk_streaming. Shard.Export: _worker_task_streaming,
-- MessageQueue and steps 4 and 5 of fetch_messages. Shard.Bounds: the decision to shard and the
-- identifier range of fetch_messages. Pipeline: AsyncPipeline.run, its writer in
-- Pipeline.Writing. Downloads: MediaDownloadQueue. PeerCache: InputPeerCache. CoreCache:
-- CacheManager, with the compression in CoreCache.Codec, the entries in CoreCache.Entry and the
-- files in CoreCache.Saved. Prefetch: PrefetchBatchProcessor. Client:
-- TelegramManager.fetch_messages. Exporter: EntityCacheData, the results of a batch,
-- _batch_cache_set, _flush_cache_batch and the last saves of TelegramExporter; Exporter.Batches: the loops of
-- _export_regular_target and _export_with_prefetch with _process_batch_with_stats;
-- Exporter.Saver: AsyncBufferedSaver and _update_message_count; Exporter.Whole: fetch_messages,
-- the loop and the file together; Exporter.Bloom: BloomFilter. Pool: AdaptiveTaskPool. Retry: the
-- delays, time-outs and the loop execute_with_retry of ConnectionManager. LogBatcher: LogBatcher.
-- Shutdown: ShutdownManager. HashDedup: HashBasedDeduplicator. Sessions: SessionGC. Routing:
-- DCRouter. The modules below these hold the proofs, the Tests modules runs at concrete inputs.
--
-- The model. Identifiers, sizes, counts and times are natural numbers; times are in milliseconds
-- in Shard and in seconds in PeerCache, densities in thousandths. The server and the clock are
-- parameters: Shard.Fetch.World gives an answer, a latency and durations for the number of
-- requests made. What a theorem needs of the server is Shard.Fetch.Paging.Serves: it answers a
-- history request with the first messages of the range, newest first, at most as many as asked
-- for, it never fails, and it does not ask to wait more than `patience` times in a row. Tasks of
-- the event loop are step relations, one step for what happens between two suspension points, so
-- a theorem about all runs is about all interleavings; in Prefetch and Pool they are functions of
-- a list of turns or of events, over every such list. In CoreCache the libraries for bytes (JSON,
-- msgpack, zlib, base64, UTF-8) are parameters, and what is needed of them stands in
-- Codec.Roundtrip.AreInverse and Saved.Reload.Inverse: each reads back what it wrote, JSON and msgpack
-- only the objects of a predicate IsJson, since they change others (the keys of a dictionary that
-- are numbers, tuples, sets). Pool counts in
-- microseconds. Retry computes with exact fractions of milliseconds where the code has floats;
-- its operation and its random factors are parameters. In Exporter the processing of a message,
-- the cache manager and the replacement of the placeholder are parameters, each place where a
-- request for a shutdown is looked at has its own Boolean, and the saver is the list of its
-- operations on the disk, so that a crash is a prefix of it. In Exporter.Bloom the hash modulo
-- the size is a parameter, which Exporter.Bloom.Members.InRange says to be below the size, and so
-- is base64. In Client the outcome of each call of get_messages and its pages are parameters;
-- Client.Fetched.Pages says that a page has the first messages after the offset and the least id.
-- An exception is a value: Shard.Fetch.Outcome for a fetch, the item `failure` for the pipeline's
-- process function.
--
-- Fuel. create_chunks takes a bound on its rounds; more than the number of identifiers of the
-- range is enough, since each round advances. send takes a bound on attempts; `patience` is
-- enough. fetch_pages takes a bound on pages; more than the number of identifiers is enough.
-- Running out of fuel is an outcome of its own, which the theorems exclude. flush takes the size
-- of the buffer, since each round removes an item. fetch_messages takes a bound on pages; more
-- than the number of messages is enough.
--
-- Not modelled: files, the terminal, external programs and the Telethon library; the batch load
-- of sender entities and the slow chunk database in _fetch_chunk_streaming; the bound of the
-- message queues, which only delays a worker; in the pipeline the timings, the sentinels and the
-- exits on a shutdown request; in the download queue stop, the byte and time statistics and the
-- callbacks, with the assumption that a cancellation reaches its worker before the next time-out;
-- the queues of size 0, which asyncio does not bound, in the pipeline; the ids of a resumed export, which
-- the exporter never has; the task runner and the calls kept for old users in the cache manager; the average times, the
-- progress of downloads and the monitoring in the connection manager, whose statistics of one
-- operation are taken to be used by one caller at a time; the times in the prefetching producer;
-- the background thread of the log batcher, which only calls flush; the file based workers, which
-- fetch_messages does not use; in the exporter the sizes the Bloom filter computes with
-- logarithms, the text of a message, the asynchronous pipeline's path, forums, the loading of a
-- state to resume from, statistics and progress display, and errors of opening and writing files;
-- in the client everything but fetch_messages.
pub mod Prelude
pub mod Dict
pub mod Shard
pub mod Shutdown
pub mod Pipeline
pub mod LogBatcher
pub mod PeerCache
pub mod Pool
pub mod Prefetch
pub mod Downloads
pub mod Retry
pub mod Routing
pub mod Sessions
pub mod Exporter
pub mod HashDedup
pub mod Client
pub mod CoreCache
