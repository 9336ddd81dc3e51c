-- ===== src/Routing.antt =====
-- `DCRouter` of src/telegram_dc_utils.py: the order in which workers are preferred. A client is
-- its `connected_dc`, 0 where the attribute is missing.
pub mod Order
mod Tests
use tobs.Prelude.{
  ℕ, suc, Bool, not, ◌&&◌, Option, none, some, List, [], ◌∷◌, ◌++◌, ◌==◌, if◌then◌else◌,
}

abbrev pub is_preferred : ℕ → ℕ → Bool
is_preferred target_dc client_dc = client_dc == target_dc && not (target_dc == 0)

-- `for idx, client in enumerate(worker_clients)`, with `preferred` and `others`
unfoldable pub partition : ℕ → ℕ → List ℕ → List ℕ × List ℕ
partition target_dc idx [] = ([], [])
partition target_dc idx (client_dc ∷ clients) =
    let (preferred, others) = partition target_dc (suc idx) clients in
    if is_preferred target_dc client_dc
    then (idx ∷ preferred, others)
    else (preferred, idx ∷ others)

unfoldable pub prioritize_workers_by_dc : List ℕ → ℕ → List ℕ
unfolding partition
prioritize_workers_by_dc worker_clients target_dc =
    (partition target_dc 0 worker_clients).0 ++ (partition target_dc 0 worker_clients).1

abbrev pub first_or : ℕ → List ℕ → ℕ
first_or default [] = default
first_or default (idx ∷ prioritized) = idx

unfoldable pub select_best_worker_index : List ℕ → ℕ → Option ℕ
unfolding prioritize_workers_by_dc
select_best_worker_index [] target_dc = none
select_best_worker_index (client_dc ∷ clients) target_dc =
    some (first_or 0 (prioritize_workers_by_dc (client_dc ∷ clients) target_dc))
