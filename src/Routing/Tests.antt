-- ===== src/Routing/Tests.antt =====
-- Three workers, the last of them connected to the second datacenter.
use tobs.Prelude.{ℕ, ◌≡◌, ◌⊎◌, refl, some, List, [], ◌∷◌}
use tobs.Routing.{select_best_worker_index}
use tobs.Routing.Order.{client_at, NonePreferred, select_best-Chosen}

abbrev connected : List ℕ
connected = 4 ∷ 0 ∷ 2 ∷ []

third_is_best : select_best_worker_index connected 2 ≡ some 2
unfolding select_best_worker_index
third_is_best = refl

select_best-Chosen_example : (client_at 2 0 connected ≡ some 2) ⊎ NonePreferred 2 connected
select_best-Chosen_example = select_best-Chosen 2 connected 2 third_is_best
