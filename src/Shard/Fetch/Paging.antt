-- ===== src/Shard/Fetch/Paging.antt =====
-- Paging gets every message of the chunk's range, newest first, past any number of flood waits.
use native.Mathlib.Nat.{add-zero}
use mathlib.Core.List.{append_assoc, append-nil}
use tobs.Prelude.{
  ℕ, zero, suc, ◌+◌, ◌-◌, ◌≤◌, ◌<◌, ◌≡◌, refl, sym, ◌∙◌, ap, subst, List, [], ◌∷◌, ◌++◌, ltb,
  length, take, drop, inl, inr, Bool-cases, arith, ◌≢◌, lt→ltb, ltb→lt, ltb→le, take_short,
  take-append-drop, if◌then◌else◌,
}
use tobs.Shard.Fetch.{
  Message, Request, Error, Response, messages, flood_wait, failure, Worker, done, World, last_id,
  is_empty, send, fetch_pages,
}
use tobs.Shard.Fetch.Ranges.{
  Descending, within, Descending-within, within-Below, within-within, last_id-take-le, within_empty,
  keep-Below_last, last_id-take-lt,
}

-- What the export relies on in the server: a request is answered by the newest messages of its
-- range, at most `limit` of them; no request fails; and a request that is repeated is answered
-- after fewer than `patience` attempts.
pub record Serves {ℓ} {C : Type ℓ} (world : World C) (archive : List (Message C)) (patience : ℕ)
    : Type ℓ where
  pub answers :
      (n : ℕ) (r : Request) (ms : List (Message C))
      → world.reply n r ≡ messages ms
      → ms ≡ take r.limit (within r.min_id r.offset_id archive)
  pub no_failure : (n : ℕ) (r : Request) (e : Error) → world.reply n r ≢ failure e
  pub patient :
      (n : ℕ) (r : Request)
      → (k : ℕ) × (ms : List (Message C)) × (k < patience) × (world.reply (n + k) r ≡ messages ms)

module _ {ℓ} {C : Type ℓ} where
  -- What fetching leaves alone.
  pub record Keeps (w w' : Worker C) : Type ℓ where
    pub queue : w'.queue ≡ w.queue
    pub messages : w'.messages ≡ w.messages
    pub slow_chunks : w'.slow_chunks ≡ w.slow_chunks

  pub Keeps-trans : (w w' w'' : Worker C) → Keeps w w' → Keeps w' w'' → Keeps w w''
  Keeps-trans w w' w'' h k = record {
    queue = k.queue ∙ h.queue;
    messages = k.messages ∙ h.messages;
    slow_chunks = k.slow_chunks ∙ h.slow_chunks;
  }

module _ {ℓ} {C : Type ℓ} (world : World C) (archive : List (Message C)) (patience : ℕ)
    (serves : Serves world archive patience) where
  abbrev Sent : ℕ → Request → Worker C → Type ℓ
  Sent tries r w =
      (w' : Worker C) × (send world tries r w
        ≡ done (take r.limit (within r.min_id r.offset_id archive), w'))
      × Keeps w w'

  -- One more attempt after a flood wait.
  send_again :
      (tries seconds : ℕ) (r : Request) (w : Worker C)
      → world.reply w.requests r ≡ flood_wait seconds
      → Sent tries r (record w { requests = w.requests + 1; flood_waits = w.flood_waits + 1 })
      → Sent (suc tries) r w
  unfolding send
  send_again tries seconds r w e (w', sent, kept) = (
    w',
    rw (e, send) sent,
    record { queue = kept.queue; messages = kept.messages; slow_chunks = kept.slow_chunks },
  )

  send_answered :
      (tries : ℕ) (r : Request) (w : Worker C) (ms : List (Message C))
      → world.reply w.requests r ≡ messages ms
      → Sent (suc tries) r w
  unfolding send
  send_answered tries r w ms e = (
    record w {
      requests = w.requests + 1;
      total_latency = w.total_latency + world.latency w.requests;
    },
    rw (e, send, ← serves.answers w.requests r ms e) refl,
    record { queue = refl; messages = refl; slow_chunks = refl },
  )

  send_after :
      (tries k : ℕ) (r : Request) (w : Worker C) (ms : List (Message C))
      → k < tries
      → world.reply (w.requests + k) r ≡ messages ms
      → Sent tries r w
  send_after zero k r w ms h e = absurd (omega arith)
  send_after (suc tries) zero r w ms h e = send_answered tries r w ms (rw add-zero at e)
  send_after (suc tries) (suc k) r w ms h e = go (world.reply w.requests r) refl (
      send_after tries k r (record w { requests = w.requests + 1; flood_waits = w.flood_waits + 1 })
        ms (omega arith) (subst (λ n. world.reply n r ≡ messages ms) (omega arith) e))
    where
      go :
          (answer : Response C)
          → world.reply w.requests r ≡ answer
          → Sent tries r (record w { requests = w.requests + 1; flood_waits = w.flood_waits + 1 })
          → Sent (suc tries) r w
      go (messages found) e' again = send_answered tries r w found e'
      go (flood_wait seconds) e' again = send_again tries seconds r w e' again
      go (failure x) e' again = absurd (serves.no_failure w.requests r x e')

  pub send_lem : (tries : ℕ) (r : Request) (w : Worker C) → patience ≤ tries → Sent tries r w
  send_lem tries r w h =
      let (k, ms, soon, e) = serves.patient w.requests r in
      send_after tries k r w ms (omega arith) e

  module _ (descending : Descending archive) (tries : ℕ) (enough : patience ≤ tries) where
    abbrev Fetched : ℕ → ℕ → ℕ → List (Message C) → Worker C → Type ℓ
    Fetched fuel start_id offset_id buffer w =
        (w' : Worker C) × (fetch_pages world tries fuel start_id offset_id buffer w
          ≡ done (buffer ++ within start_id offset_id archive, w'))
        × Keeps w w'

    -- What the next page starts from is exactly what this page left over.
    rest_of_page :
        (start_id offset_id : ℕ)
        → within start_id (last_id offset_id (take 100 (within start_id offset_id archive))) archive
          ≡ drop 100 (within start_id offset_id archive)
    rest_of_page start_id offset_id =
        let page = within start_id offset_id archive in
        let below = within-Below start_id offset_id archive in
        let down = Descending-within start_id offset_id archive descending in
        within-within start_id _ offset_id archive (last_id-take-le 100 offset_id page below down)
        ∙ keep-Below_last 100 offset_id page below down

    abbrev request : ℕ → ℕ → Request
    request start_id offset_id = record { offset_id = offset_id; min_id = start_id; limit = 100 }

    fetch_pages-step :
        (fuel start_id offset_id : ℕ) (buffer page : List (Message C)) (w w' : Worker C)
        → start_id < offset_id
        → send world tries (request start_id offset_id) w ≡ done (page, w')
        → fetch_pages world tries (suc fuel) start_id offset_id buffer w ≡ (
            if is_empty page
            then done (buffer, w')
            else if ltb (length page) 100
            then done (buffer ++ page, w')
            else fetch_pages world tries fuel start_id (last_id offset_id page) (buffer ++ page) w')
    unfolding fetch_pages
    fetch_pages-step fuel start_id offset_id buffer page w w' more sent =
        rw (lt→ltb start_id offset_id more, sent, fetch_pages) refl

    abbrev range : ℕ → ℕ → List (Message C)
    range start_id offset_id = within start_id offset_id archive

    page_joined :
        (start_id offset_id : ℕ) (page : List (Message C))
        → page ≡ take 100 (range start_id offset_id)
        → page ++ range start_id (last_id offset_id page) ≡ range start_id offset_id
    page_joined start_id offset_id page e =
        let whole = range start_id offset_id in
        subst (λ p. p ++ range start_id (last_id offset_id p) ≡ whole) (sym e)
          (ap (◌++◌ (take 100 whole)) (rest_of_page start_id offset_id)
            ∙ take-append-drop 100 whole)

    page_smaller :
        (start_id offset_id : ℕ) (m : Message C) (ms : List (Message C))
        → m ∷ ms ≡ take 100 (range start_id offset_id)
        → last_id offset_id (m ∷ ms) < offset_id
    page_smaller start_id offset_id m ms e =
        subst (λ p. last_id offset_id p < offset_id) (sym e)
          (last_id-take-lt 99 offset_id (range start_id offset_id) m ms
            (within-Below start_id offset_id archive)
            (Descending-within start_id offset_id archive descending) e)

    -- The last page, and a page with another behind it.
    fetch_pages_page :
        (fuel start_id offset_id : ℕ) (buffer page : List (Message C)) (w w' : Worker C)
        → start_id < offset_id
        → offset_id - start_id < suc fuel
        → send world tries (request start_id offset_id) w ≡ done (page, w')
        → page ≡ take 100 (range start_id offset_id)
        → Keeps w w'
        → ((o : ℕ) (b : List (Message C)) → o - start_id < fuel → Fetched fuel start_id o b w')
        → Fetched (suc fuel) start_id offset_id buffer w
    fetch_pages_page fuel start_id offset_id buffer [] w w' more h sent e kept next =
        let whole : [] ≡ range start_id offset_id =
          e ∙ take_short 100 (range start_id offset_id) (omega (arith, ap length e)) in
        (
          w',
          rw (
            fetch_pages-step fuel start_id offset_id buffer [] w w' more sent,
            ← whole,
            append-nil,
          ),
          kept,
        )
    fetch_pages_page fuel start_id offset_id buffer (m ∷ ms) w w' more h sent e kept next =
        elim (Bool-cases (ltb (length (m ∷ ms)) 100)) [
          | inl short ↦
              let whole : (m ∷ ms) ≡ range start_id offset_id =
                e
                ∙ take_short 100 (range start_id offset_id)
                    (omega (arith, ap length e, ltb→lt (length (m ∷ ms)) 100 short)) in
              (
                w',
                rw (
                  fetch_pages-step fuel start_id offset_id buffer (m ∷ ms) w w' more sent,
                  short,
                  ← whole,
                ),
                kept,
              )
          | inr full ↦
              let (w'', fetched, kept') =
                next (last_id m.id ms) (buffer ++ m ∷ ms)
                  (omega (arith, page_smaller start_id offset_id m ms e)) in
              (
                w'',
                fetch_pages-step fuel start_id offset_id buffer (m ∷ ms) w w' more sent
                    ∙ rw full (
                        fetched
                        ∙ ap (λ b. done (b, w''))
                            (append_assoc buffer (m ∷ ms) _
                              ∙ ap (◌++◌ buffer) (page_joined start_id offset_id (m ∷ ms) e))),
                Keeps-trans w w' w'' kept kept',
              )
        ]

    -- Enough fuel for the identifiers of the range is enough for the loop, and it fetches the range.
    pub fetch_pages_lem :
        (fuel start_id offset_id : ℕ) (buffer : List (Message C)) (w : Worker C)
        → offset_id - start_id < fuel
        → Fetched fuel start_id offset_id buffer w
    unfolding fetch_pages
    fetch_pages_lem zero start_id offset_id buffer w h = absurd (omega arith)
    fetch_pages_lem (suc fuel) start_id offset_id buffer w h =
        elim (Bool-cases (ltb start_id offset_id)) [
          | inr e ↦
              let over = ltb→le start_id offset_id e in
              (
                w,
                rw (e, within_empty start_id offset_id archive (omega arith), append-nil),
                record { queue = refl; messages = refl; slow_chunks = refl },
              )
          | inl more ↦
              let (w', sent, kept) = send_lem tries (request start_id offset_id) w enough in
              fetch_pages_page fuel start_id offset_id buffer _ w w' (ltb→lt _ _ more) h sent refl
                kept (λ o b. fetch_pages_lem fuel start_id o b w')
        ]
