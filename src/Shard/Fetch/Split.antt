-- ===== src/Shard/Fetch/Split.antt =====
-- A chunk puts every message of its range into the worker's queue exactly once, whether or not it
-- is split into sub-chunks on the way, at any depth.
use mathlib.Core.List.{append_assoc, append-nil, Permᴰ}
use mathlib.Core.List.Permᴰ
use tobs.Prelude.{
  ℕ, zero, suc, ◌+◌, ◌-◌, ◌≤◌, ◌<◌, ◌≡◌, refl, sym, ◌∙◌, ap, List, [], ◌∷◌, ◌++◌, ltb, length,
  length-append, inl, inr, Bool-cases, arith, ◌&&◌,
}
use tobs.Shard.Fetch.{
  Message, split_attempted, Worker, Outcome, done, World, sub_chunks, for_each, log_slow, stream,
  fetch_chunk,
}
use tobs.Shard.Fetch.Ranges.{Descending, within, within_empty, within-split}
use tobs.Shard.Fetch.Paging.{Serves, Keeps, fetch_pages_lem}

-- The chunks follow one another from `a` to `b`. Some may be empty.
abbrev pub Chains : ℕ → ℕ → List (ℕ × ℕ) → Type 0
Chains a b [] = a ≡ b
Chains a b ((s, e) ∷ rest) = (s ≡ a) × (s ≤ e) × Chains e b rest

pub Chains-le : (a b : ℕ) (chunks : List (ℕ × ℕ)) → Chains a b chunks → a ≤ b
Chains-le a b [] h = omega arith
Chains-le a b ((s, e) ∷ rest) h = omega (arith, Chains-le e b rest h.2)

sub_chunks-Chains : (s e : ℕ) → s ≤ e → Chains s e (sub_chunks s e)
sub_chunks-Chains s e h = omega arith

module _ {ℓ} {C : Type ℓ} (archive : List (Message C)) where
  -- The messages of the chunks, chunk by chunk.
  abbrev pub gather : List (ℕ × ℕ) → List (Message C)
  gather [] = []
  gather ((s, e) ∷ rest) = within s (e + 1) archive ++ gather rest

  pub gather-perm :
      (a b : ℕ) (chunks : List (ℕ × ℕ))
      → Descending archive
      → Chains a b chunks
      → Permᴰ (gather chunks) (within a (b + 1) archive)
  gather-perm a b [] d h = rw (within_empty a (b + 1) archive (omega arith)) Permᴰ.nil
  gather-perm a b ((s, e) ∷ rest) d h =
      rw (within-split a e b archive d (omega arith) (Chains-le e b rest h.2), h.0)
        (Permᴰ.trans (Permᴰ.append_left (within a (e + 1) archive) (gather-perm e b rest d h.2))
          (Permᴰ.append_comm (within a (e + 1) archive) (within e (b + 1) archive)))

  -- The run ends, having put a permutation of the target into the queue and counted it.
  abbrev pub Streams : Outcome C (Worker C) → Worker C → List (Message C) → Type ℓ
  Streams run w target =
      (w' : Worker C) × (put : List (Message C)) × (run ≡ done w')
      × (w'.queue ≡ w.queue ++ put)
      × (w'.messages ≡ w.messages + length put)
      × Permᴰ put target

  pub Streams-perm :
      (run : Outcome C (Worker C)) (w : Worker C) (target target' : List (Message C))
      → Permᴰ target target'
      → Streams run w target
      → Streams run w target'
  Streams-perm run w target target' p (w', put, ran, queued, counted, perm) =
      (w', put, ran, queued, counted, Permᴰ.trans perm p)

  pub for_each-Streams :
      (body : ℕ × ℕ → Worker C → Outcome C (Worker C)) (a b : ℕ) (chunks : List (ℕ × ℕ))
      (w : Worker C)
      → Chains a b chunks
      → ((s e : ℕ) (v : Worker C)
          → a ≤ s
          → s ≤ e
          → e ≤ b
          → Streams (body (s, e) v) v (within s (e + 1) archive))
      → Streams (for_each body chunks w) w (gather chunks)
  unfolding for_each
  for_each-Streams body a b [] w h each =
      (w, [], refl, sym (append-nil w.queue), omega arith, Permᴰ.nil)
  for_each-Streams body a b ((s, e) ∷ rest) w h each =
      let (w', put, ran, queued, counted, perm) =
        each s e w (omega arith) h.1 (Chains-le e b rest h.2) in
      let (w'', put', ran', queued', counted', perm') =
        for_each-Streams body e b rest w' h.2 (λ s' e' v p q r. each s' e' v (omega arith) q r) in
      (
        w'',
        put ++ put',
        rw ran ran',
        queued' ∙ ap (λ q. q ++ put') queued ∙ append_assoc w.queue put put',
        omega (arith, length-append put put'),
        Permᴰ.trans (Permᴰ.append_right put' perm) (Permᴰ.append_left _ perm'),
      )

module _ {ℓ} {C : Type ℓ} (world : World C) (tries : ℕ) where
  -- Streaming puts the whole buffer.
  stream_lem :
      (s e duration : ℕ) (buffer : List (Message C)) (w : Worker C)
      → ((stream world tries (s, e) duration buffer w).queue ≡ w.queue ++ buffer)
        × ((stream world tries (s, e) duration buffer w).messages ≡ w.messages + length buffer)
  unfolding stream
  stream_lem s e duration [] w = (ground (arith, append-nil w.queue), ground arith)
  stream_lem s e duration (m ∷ ms) w = (ground arith, ground arith)

module _ {ℓ} {C : Type ℓ} (world : World C) (archive : List (Message C)) (patience : ℕ)
    (serves : Serves world archive patience) (descending : Descending archive) (tries : ℕ)
    (enough : patience ≤ tries) (fuel threshold : ℕ) where
  Streams-whole :
      (s e duration : ℕ) (w w' : Worker C)
      → Keeps w w'
      → Streams archive
          (done (stream world tries (s, e) duration (within s (e + 1) archive) w'))
          w
          (within s (e + 1) archive)
  Streams-whole s e duration w w' kept =
      let (queued, counted) = stream_lem world tries s e duration (within s (e + 1) archive) w' in
      (
        stream world tries (s, e) duration (within s (e + 1) archive) w',
        within s (e + 1) archive,
        refl,
        queued ∙ ap (λ q. q ++ within s (e + 1) archive) kept.queue,
        omega (arith, kept.messages),
        Permᴰ.refl _,
      )

  -- Logging a split first changes neither the queue nor the count.
  Streams-logged :
      (s e duration count : ℕ) (run : Outcome C (Worker C)) (w w' : Worker C)
      (target : List (Message C))
      → Keeps w w'
      → Streams archive run (log_slow world tries (s, e) duration count split_attempted w') target
      → Streams archive run w target
  unfolding log_slow
  Streams-logged s e duration count run w w' target kept (v, put, ran, queued, counted, perm) =
      (v, put, ran, queued ∙ ap (λ q. q ++ put) kept.queue, omega (arith, kept.messages), perm)

  -- For a history listed newest first, a server that answers as `Serves` says, as many attempts as its
  -- patience, and more fuel than s to e + 1 has identifiers, where s ≤ e: a chunk's fetch ends, and it
  -- puts every message of the range s < id ≤ e into the queue exactly once and counts it, in whatever
  -- way slowness splits the chunk.
  pub fetch_chunk-Streams :
      (max_retries s e : ℕ) (w : Worker C)
      → s ≤ e
      → e + 1 - s < fuel
      → Streams archive
          (fetch_chunk world tries fuel threshold max_retries (s, e) w)
          w
          (within s (e + 1) archive)
  unfolding fetch_chunk
  fetch_chunk-Streams zero s e w ordered h =
      let (w', fetched, kept) =
        fetch_pages_lem world archive patience serves descending tries enough fuel s (e + 1) [] w
          h in
      rw fetched (Streams-whole s e (world.elapsed w.requests w'.requests) w w' kept)
  fetch_chunk-Streams (suc max_retries) s e w ordered h =
      let (w', fetched, kept) =
        fetch_pages_lem world archive patience serves descending tries enough fuel s (e + 1) [] w
          h in
      let duration = world.elapsed w.requests w'.requests in
      elim (Bool-cases (ltb threshold duration && ltb 1_000 (e - s))) [
        | inl slow ↦
            let before =
              log_slow world tries (s, e) duration (length (within s (e + 1) archive))
                split_attempted w' in
            let run =
              for_each (fetch_chunk world tries fuel threshold max_retries) (sub_chunks s e)
                before in
            let chained = sub_chunks-Chains s e ordered in
            let streamed =
              for_each-Streams archive (fetch_chunk world tries fuel threshold max_retries) s e
                (sub_chunks s e) before chained
                (λ s' e' v p q r. fetch_chunk-Streams max_retries s' e' v q (omega arith)) in
            rw (fetched, slow)
              (Streams-perm archive run w (gather archive (sub_chunks s e))
                (within s (e + 1) archive)
                (gather-perm archive s e (sub_chunks s e) descending chained)
                (Streams-logged s e duration (length (within s (e + 1) archive)) run w w'
                  (gather archive (sub_chunks s e)) kept streamed))
        | inr quick ↦ rw (fetched, quick) (Streams-whole s e duration w w' kept)
      ]
