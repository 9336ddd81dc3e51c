-- ===== src/Shard.antt =====
-- The sharded export: src/telegram_sharded_client.py and src/hot_zones_manager.py.
-- `Zones` picks a chunk size, `Chunks` cuts an identifier range, `Fetch` pages through one chunk,
-- `Export` runs the workers and merges what they streamed. The theorems stand in their children.
pub mod Zones
pub mod Chunks
pub mod Fetch
pub mod Export
pub mod Bounds
mod Tests
