-- ===== src/Client.antt =====
-- `TelegramManager.fetch_messages` of src/telegram_client.py, which yields the messages of a chat page by
-- page. The calls of `client.get_messages` are numbered; what comes of each call is a parameter, and so is
-- what the client gives for a limit, an offset and a least id. The log is left out.
pub mod Paging
pub mod Retries
pub mod Fetched
mod Tests
use tobs.Prelude.{
  ℕ, zero, suc, ◌+◌, ◌-◌, min, Option, none, some, Bool, true, false, List, [], ◌∷◌, ◌++◌, leb,
  ◌==◌, if◌then◌else◌,
}

-- What comes of a call: messages, a FloodWaitError with its seconds, or another exception
pub data Attempt : Type 0 where
  succeeds fails : Attempt
  floods : ℕ → Attempt

pub data Outcome : Type 0 where
  finished raised out_of_fuel : Outcome

pub record Client (M : Type 0) : Type 0 where
  pub attempt : ℕ → Attempt
  pub get_messages : ℕ → ℕ → ℕ → List M
  pub id : M → ℕ
  pub has_action : M → Bool

-- `sleeps` are the seconds slept after failed calls, `calls` counts all calls.
pub record Fetch (M : Type 0) : Type 0 where
  pub current_offset_id : ℕ
  pub total_fetched : ℕ
  pub calls : ℕ
  pub sleeps : List ℕ
  pub yielded : List M

pub data Batch (M : Type 0) : Type 0 where
  batch_raised : ℕ → List ℕ → Batch M
  batch_messages : List M → ℕ → List ℕ → Batch M

-- `limit`, `page` and `page_size` to `effective_limit`, with `lazy_message_page_size`
abbrev pub page_limit : Option ℕ → ℕ → Option ℕ
page_limit limit page_size = if page_size == 0 then limit else some page_size

abbrev pub effective_limit : ℕ → Option ℕ → Option ℕ → Option ℕ → Option ℕ
effective_limit lazy_size limit none page_size = limit
effective_limit lazy_size limit (some page) none = page_limit limit lazy_size
effective_limit lazy_size limit (some page) (some page_size) = page_limit limit page_size

abbrev pub is_reached : Option ℕ → ℕ → Bool
is_reached none total_fetched = false
is_reached (some limit) total_fetched = leb limit total_fetched

abbrev pub batch_limit : ℕ → Option ℕ → ℕ → ℕ
batch_limit batch_size none total_fetched = batch_size
batch_limit batch_size (some limit) total_fetched = min batch_size (limit - total_fetched)

module _ {M : Type 0} (c : Client M) where
  -- `while retry_count < max_retries`, with the number of retries that are left
  unfoldable pub fetch_batch : ℕ → ℕ → ℕ → ℕ → ℕ → List ℕ → Batch M
  fetch_batch zero limit offset_id min_id calls sleeps = batch_messages [] calls sleeps
  fetch_batch (suc retries) limit offset_id min_id calls sleeps =
      let retry = fetch_batch retries limit offset_id min_id (calls + 1) in
      elim (c.attempt calls) [
        | succeeds ↦ batch_messages (c.get_messages limit offset_id min_id) (calls + 1) sleeps
        | floods seconds ↦
            if retries == 0
            then batch_raised (calls + 1) sleeps
            else retry (sleeps ++ (seconds + 1) ∷ [])
        | fails ↦ if retries == 0 then batch_raised (calls + 1) sleeps else retry (sleeps ++ 5 ∷ [])
      ]

  -- `for message in batch_messages`: what is yielded, and `total_fetched`
  unfoldable pub yield_batch : Option ℕ → List M → ℕ → List M × ℕ
  yield_batch limit [] total = ([], total)
  yield_batch limit (message ∷ batch) total =
      let skipped = yield_batch limit batch total in
      let rest = yield_batch limit batch (total + 1) in
      if c.has_action message
      then skipped
      else if is_reached limit (total + 1)
      then (message ∷ [], total + 1)
      else (message ∷ rest.0, rest.1)

  abbrev pub last_id : M → List M → ℕ
  last_id m [] = c.id m
  last_id m (n ∷ ms) = last_id n ms

  -- What follows a batch with messages
  abbrev pub after_batch : Option ℕ → M → List M → ℕ → List ℕ → Fetch M → Fetch M
  after_batch limit m ms calls sleeps s =
      let (messages, total) = yield_batch limit (m ∷ ms) s.total_fetched in
      record {
        current_offset_id = last_id m ms;
        total_fetched = total;
        calls = calls;
        sleeps = sleeps;
        yielded = s.yielded ++ messages;
      }

  abbrev pub called : ℕ → List ℕ → Fetch M → Fetch M
  called calls sleeps s = record s { calls = calls; sleeps = sleeps }

  -- `while True`
  unfoldable pub fetch_from : ℕ → ℕ → Option ℕ → ℕ → Fetch M → Outcome × Fetch M
  unfolding fetch_batch
  fetch_from zero batch_size limit min_id s = (out_of_fuel, s)
  fetch_from (suc fuel) batch_size limit min_id s =
      let next = fetch_from fuel batch_size limit min_id in
      if is_reached limit s.total_fetched
      then (finished, s)
      else elim (fetch_batch 3 (batch_limit batch_size limit s.total_fetched) s.current_offset_id
          min_id s.calls s.sleeps) [
            | batch_raised calls sleeps ↦ (raised, called calls sleeps s)
            | batch_messages messages calls sleeps ↦ elim messages [
              | [] ↦ (finished, called calls sleeps s)
              | m ∷ ms ↦ next (after_batch limit m ms calls sleeps s)
            ]
          ]

  abbrev pub new_fetch : Fetch M
  new_fetch = record {
    current_offset_id = 0;
    total_fetched = 0;
    calls = 0;
    sleeps = [];
    yielded = [];
  }

  -- `min_id` None is 0.
  abbrev pub fetch_messages : ℕ → ℕ → Option ℕ → ℕ → Outcome × Fetch M
  fetch_messages fuel batch_size limit min_id = fetch_from fuel batch_size limit min_id new_fetch
