-- ===== src/Shard/Bounds.antt =====
-- The start of `fetch_messages` in src/telegram_sharded_client.py: whether to shard, and the bounds
-- of the identifier range. The server's answers about the entity are arguments.
pub mod Oldest
use tobs.Prelude.{
  ℕ, ◌-◌, max, Bool, false, true, ◌&&◌, not, Option, none, some, List, [], ◌∷◌, ltb, ◌==◌, is_some,
  if◌then◌else◌,
}
use tobs.Shard.Fetch.{Message}

-- What of the call decides. `limit` and `noforwards` are 0 and false where they are absent.
pub record Call : Type 0 where
  pub enable_shard_fetch : Bool
  pub page : Option ℕ
  pub limit : ℕ
  pub noforwards : Bool

unfoldable pub use_sharding : Call → Bool
use_sharding c =
    c.enable_shard_fetch
    && not (is_some c.page)
    && not (not (c.limit == 0) && ltb c.limit 1_000)
    && not c.noforwards

-- `messages[0].id` of the newest message; with none the caller falls back to the standard fetch.
unfoldable pub max_id {ℓ} : {C : Type ℓ} → List (Message C) → Option ℕ
max_id [] = none
max_id (m ∷ ms) = some m.id

-- The lower bound without a limit: the given one, else the identifier of the oldest message, else 1.
unfoldable pub lower_bound {ℓ} : {C : Type ℓ} → Option ℕ → List (Message C) → ℕ
lower_bound (some min_id) oldest_messages = min_id
lower_bound none [] = 1
lower_bound none (m ∷ ms) = m.id

unfoldable pub effective_min {ℓ} : {C : Type ℓ} → ℕ → Option ℕ → List (Message C) → ℕ → ℕ
unfolding lower_bound
effective_min limit min_id oldest_messages newest =
    if limit == 0 then lower_bound min_id oldest_messages else max 1 (newest - limit)
