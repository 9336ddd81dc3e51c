-- ===== src/Client/Tests.antt =====
-- A chat of five messages, the third a service message, with a client whose second call is told to wait.
use tobs.Prelude.{
  ℕ, ◌≡◌, refl, ◌⊎◌, none, some, List, [], ◌∷◌, take, keep, ltb, ◌&&◌, ◌==◌, arith, if◌then◌else◌,
}
use tobs.Client.{
  Attempt, succeeds, floods, fails, finished, raised, Client, fetch_messages, effective_limit,
  fetch_batch, yield_batch, fetch_from,
}
use tobs.Client.Paging.{Ascending}
use tobs.Client.Retries.{AllFail}
use tobs.Client.Fetched.{fetch_messages-yields}

abbrev chat : List ℕ
chat = 1 ∷ 2 ∷ 3 ∷ 4 ∷ 5 ∷ []

-- The k-th call, where the first ones succeed up to the one that is given
abbrev attempt_until : ℕ → Attempt → ℕ → Attempt
attempt_until last failure k = if k == last then failure else succeeds

abbrev client_with : (ℕ → Attempt) → Client ℕ
client_with attempts = record {
  attempt = attempts;
  get_messages =
      λ limit offset_id min_id. take limit (keep (λ m. ltb offset_id m && ltb min_id m) chat);
  id = λ m. m;
  has_action = λ m. m == 3;
}

abbrev client : Client ℕ
client = client_with (attempt_until 1 (floods 30))

chat-Ascending : Ascending client chat
chat-Ascending = (
  (omega arith, (omega arith, (omega arith, (omega arith, tt)))),
  (
    (omega arith, (omega arith, (omega arith, tt))),
    ((omega arith, (omega arith, tt)), ((omega arith, tt), (tt, tt))),
  ),
)

fetch_messages-yields_example :
    let (outcome, t) = fetch_messages client 6 2 (some 3) 1 in
    ((outcome ≡ finished) × (t.yielded ≡ 2 ∷ 4 ∷ 5 ∷ []))
    ⊎ ((outcome ≡ raised)
        × ((k : ℕ) × AllFail client k 3)
        × ((n : ℕ) × (t.yielded ≡ take n (2 ∷ 4 ∷ 5 ∷ []))))
fetch_messages-yields_example =
    fetch_messages-yields client chat 2 1 (λ limit off least. refl) chat-Ascending (omega arith) 6
      (some 3) (omega arith)

-- The wait of 30 seconds and one more is slept, and the batch fetched again.
sleeps-test :
    let (outcome, t) = fetch_messages client 6 2 (effective_limit 50 none none (some 1)) 1 in
    (outcome ≡ finished) × (t.yielded ≡ 2 ∷ 4 ∷ 5 ∷ []) × (t.sleeps ≡ 31 ∷ [])
unfolding fetch_from fetch_batch yield_batch
sleeps-test = (refl, refl, refl)

failing-test :
    let (outcome, t) =
      fetch_messages (client_with (λ k. if k == 0 then succeeds else fails)) 6 2 none 0 in
    (outcome ≡ raised) × (t.yielded ≡ 1 ∷ 2 ∷ []) × (t.sleeps ≡ 5 ∷ 5 ∷ [])
unfolding fetch_from fetch_batch yield_batch
failing-test = (refl, refl, refl)
