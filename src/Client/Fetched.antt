-- ===== src/Client/Fetched.antt =====
-- The messages that are yielded in the end, and the errors that end them early.
use tobs.Prelude.{
  ℕ, zero, suc, ◌+◌, ◌-◌, ◌≤◌, ◌<◌, ◌≡◌, refl, sym, ◌∙◌, ap, subst, ◌⊎◌, inl, inr, Option, none,
  some, false, not, List, [], ◌∷◌, ◌++◌, length, length-append, take, drop, take-append-drop, keep,
  keep-append, length-keep-le, arith, Bool-cases,
}
use mathlib.Core.List.{append_assoc}
use tobs.Client.{
  Outcome, finished, raised, Client, Fetch, Batch, batch_raised, batch_messages, is_reached,
  batch_limit, fetch_batch, yield_batch, after_batch, fetch_from, new_fetch, fetch_messages,
}
use tobs.Client.Retries.{AllFail, Fetches, fetch_batch-Fetches}
use tobs.Client.Paging.{
  limited, quota, limited-append, limited_none_left, wanted, yield_batch-limited, Ascending, after,
  keep_next,
}

module _ {M : Type 0} (c : Client M) where
  -- From a state s, with these messages to come: all of them are yielded up to the limit, or three calls
  -- in a row failed, and the first ones are.
  abbrev Ends : Option ℕ → Fetch M → List M → Outcome × Fetch M → Type 0
  Ends limit s ms (o, t) =
      let all = limited (quota limit s.total_fetched) (wanted c ms) in
      ((o ≡ finished) × (t.yielded ≡ s.yielded ++ all))
      ⊎ ((o ≡ raised)
          × ((k : ℕ) × AllFail c k 3)
          × ((n : ℕ) × (t.yielded ≡ s.yielded ++ take n all)))

  module _ (chat : List M) (batch_size least : ℕ) where
    -- The client gives the first messages after both the offset and the least id.
    abbrev pub Pages : Type 0
    Pages =
        (limit off min_id : ℕ)
        → c.get_messages limit off min_id ≡ take limit (keep (after c off min_id) chat)

    take_longer : (n : ℕ) (xs ys : List M) → xs ++ take n ys ≡ take (length xs + n) (xs ++ ys)
    take_longer n [] ys = let same : n ≡ 0 + n = omega arith in ap (λ k. take k ys) same
    take_longer n (x ∷ xs) ys =
        let same : suc (length xs + n) ≡ suc (length xs) + n = omega arith in
        ap (λ l. x ∷ l) (take_longer n xs ys) ∙ ap (λ k. take k (x ∷ xs ++ ys)) same

    take_empty : (n : ℕ) (xs : List M) → 1 ≤ n → take n xs ≡ [] → xs ≡ []
    take_empty zero xs h e = absurd (omega arith)
    take_empty (suc n) [] h e = refl
    take_empty (suc n) (x ∷ xs) h e = absurd (omega (arith, ap length e))

    length-drop_less :
        (n : ℕ) (xs : List M) (m : M) (ms : List M)
        → take n xs ≡ m ∷ ms
        → length (drop n xs) < length xs
    length-drop_less n xs m ms e = omega (
      arith,
      ap length e,
      ap length (take-append-drop n xs),
      length-append (take n xs) (drop n xs),
    )

    append_nil : (xs : List M) → xs ++ [] ≡ xs
    append_nil [] = refl
    append_nil (x ∷ xs) = rw (append_nil xs)

    batch_limit-positive :
        (limit : Option ℕ) (total : ℕ)
        → 1 ≤ batch_size
        → is_reached limit total ≡ false
        → 1 ≤ batch_limit batch_size limit total
    batch_limit-positive none total h more = h
    batch_limit-positive (some n) total h more = ground arith

    -- What is yielded of a page and after it makes up what is yielded.
    page-Ends :
        (limit : Option ℕ) (s t : Fetch M) (page rest ys : List M) (r : Outcome × Fetch M)
        → ys ≡ limited (quota limit s.total_fetched) (wanted c page)
        → t.yielded ≡ s.yielded ++ ys
        → t.total_fetched ≡ s.total_fetched + length ys
        → Ends limit t rest r
        → Ends limit s (page ++ rest) r
    page-Ends limit s t page rest ys (o, u) yields next total ends =
        let more = limited (quota limit t.total_fetched) (wanted c rest) in
        let whole : limited (quota limit s.total_fetched) (wanted c (page ++ rest)) ≡ ys ++ more =
          ap (limited (quota limit s.total_fetched))
            (keep-append (λ m. not (c.has_action m)) page rest)
          ∙ limited-append limit s.total_fetched (wanted c page) (wanted c rest)
          ∙ ap (λ l. l ++ limited (quota limit (s.total_fetched + length l)) (wanted c rest))
              (sym yields)
          ∙ ap (λ k. ys ++ limited (quota limit k) (wanted c rest)) (sym total) in
        elim ends [
          | inl (done, written) ↦ inl (
            done,
            written
                ∙ ap (λ l. l ++ more) next
                ∙ append_assoc s.yielded ys more
                ∙ ap (λ l. s.yielded ++ l) (sym whole),
          )
          | inr (error, failed, (n, written)) ↦ inr (
            error,
            failed,
            (
              length ys + n,
              written
                  ∙ ap (λ l. l ++ take n more) next
                  ∙ append_assoc s.yielded ys (take n more)
                  ∙ ap (λ l. s.yielded ++ l)
                      (take_longer n ys more ∙ ap (take (length ys + n)) (sym whole)),
            ),
          )
        ]

    module _ (pages : Pages) (ascending : Ascending c chat) (positive : 1 ≤ batch_size) where
      page-next :
          (limit : Option ℕ) (s : Fetch M) (fuel size : ℕ) (m : M) (ms rest : List M) (calls : ℕ)
          (sleeps : List ℕ)
          → keep (after c s.current_offset_id least) chat ≡ rest
          → length rest < suc fuel
          → is_reached limit s.total_fetched ≡ false
          → m ∷ ms ≡ c.get_messages size s.current_offset_id least
          → ((t : Fetch M) (r : List M)
              → keep (after c t.current_offset_id least) chat ≡ r
              → length r < fuel
              → Ends limit t r (fetch_from c fuel batch_size limit least t))
          → Ends limit s rest
              (fetch_from c fuel batch_size limit least (after_batch c limit m ms calls sleeps s))
      page-next limit s fuel size m ms rest calls sleeps e h more got rec =
          let t = after_batch c limit m ms calls sleeps s in
          let page : take size rest ≡ m ∷ ms =
            sym (got ∙ pages size s.current_offset_id least ∙ ap (take size) e) in
          let whole : rest ≡ m ∷ ms ++ drop size rest =
            sym (take-append-drop size rest) ∙ ap (λ l. l ++ drop size rest) page in
          let (yields, total) = yield_batch-limited c limit (m ∷ ms) s.total_fetched more in
          subst (λ l. Ends limit s l (fetch_from c fuel batch_size limit least t)) (sym whole)
            (page-Ends limit s t (m ∷ ms) (drop size rest)
              (yield_batch c limit (m ∷ ms) s.total_fetched).0
              (fetch_from c fuel batch_size limit least t) yields refl total
              (rec t (drop size rest)
                (keep_next c s.current_offset_id least chat m ms (drop size rest) ascending
                  (e ∙ whole))
                (omega (arith, h, length-drop_less size rest m ms page))))

      fetch_from-Ends :
          (fuel : ℕ) (limit : Option ℕ) (s : Fetch M) (rest : List M)
          → keep (after c s.current_offset_id least) chat ≡ rest
          → length rest < fuel
          → Ends limit s rest (fetch_from c fuel batch_size limit least s)
      unfolding fetch_from
      fetch_from-Ends zero limit s rest e h = absurd (omega arith)
      fetch_from-Ends (suc fuel) limit s rest e h =
          let size = batch_limit batch_size limit s.total_fetched in
          elim (Bool-cases (is_reached limit s.total_fetched)) [
            | inl reached ↦
                rw (fetch_from, reached)
                  (inl (
                    refl,
                    sym (
                        ap (λ l. s.yielded ++ l)
                          (limited_none_left limit s.total_fetched (wanted c rest) reached)
                        ∙ append_nil s.yielded),
                  ))
            | inr more ↦
                go more (fetch_batch c 3 size s.current_offset_id least s.calls s.sleeps) refl
                  (fetch_batch-Fetches c 3 size s.current_offset_id least s.calls s.sleeps
                    (omega arith))
                  (λ t r. fetch_from-Ends fuel limit t r)
          ]
        where
          limited_nil : (q : Option ℕ) → s.yielded ≡ s.yielded ++ limited q []
          limited_nil none = sym (append_nil s.yielded)
          limited_nil (some zero) = sym (append_nil s.yielded)
          limited_nil (some (suc n)) = sym (append_nil s.yielded)

          go :
              is_reached limit s.total_fetched ≡ false
              → (b : Batch M)
              → let size = batch_limit batch_size limit s.total_fetched in
                fetch_batch c 3 size s.current_offset_id least s.calls s.sleeps ≡ b
                → Fetches c 3 (c.get_messages size s.current_offset_id least) s.calls b
                → ((t : Fetch M) (r : List M)
                    → keep (after c t.current_offset_id least) chat ≡ r
                    → length r < fuel
                    → Ends limit t r (fetch_from c fuel batch_size limit least t))
                → Ends limit s rest (fetch_from c (suc fuel) batch_size limit least s)
          go more (batch_raised calls sleeps) b failed rec =
              rw (fetch_from, more, b)
                (inr (refl, (s.calls, failed), (0, sym (append_nil s.yielded))))
          go more (batch_messages [] calls sleeps) b got rec =
              let size = batch_limit batch_size limit s.total_fetched in
              let no_rest : rest ≡ [] =
                take_empty size rest (batch_limit-positive limit s.total_fetched positive more)
                  (sym (got ∙ pages size s.current_offset_id least ∙ ap (take size) e)) in
              rw (fetch_from, more, b)
                (inl (
                  refl,
                  limited_nil (quota limit s.total_fetched)
                      ∙ ap (λ l. s.yielded ++ limited (quota limit s.total_fetched) (wanted c l))
                          (sym no_rest),
                ))
          go more (batch_messages (m ∷ ms) calls sleeps) b got rec =
              rw (fetch_from, more, b)
                (page-next limit s fuel (batch_limit batch_size limit s.total_fetched) m ms rest
                  calls sleeps e h more got rec)

      quota_all : (limit : Option ℕ) → quota limit 0 ≡ limit
      quota_all none = refl
      quota_all (some n) = let same : n - 0 ≡ n = omega arith in ap some same

      -- For a chat whose messages have ascending ids, where the client gives, for each limit, offset and
      -- least id, the first messages after both, a positive batch size and more fuel than messages:
      -- fetch_messages ends. It yields, in order, the messages with a positive id above the least one
      -- that are no service messages, up to the limit; or three calls in a row failed, and it raises
      -- after it has yielded the first of them.
      pub fetch_messages-yields :
          (fuel : ℕ) (limit : Option ℕ)
          → length chat < fuel
          → let (outcome, t) = fetch_messages c fuel batch_size limit least in
            let all = limited limit (wanted c (keep (after c 0 least) chat)) in
            ((outcome ≡ finished) × (t.yielded ≡ all))
            ⊎ ((outcome ≡ raised)
                × ((k : ℕ) × AllFail c k 3)
                × ((n : ℕ) × (t.yielded ≡ take n all)))
      fetch_messages-yields fuel limit h =
          let few = length-keep-le (after c 0 least) chat in
          subst
            (λ q.
              let (outcome, t) = fetch_messages c fuel batch_size limit least in
              let all = limited q (wanted c (keep (after c 0 least) chat)) in
              ((outcome ≡ finished) × (t.yielded ≡ all))
              ⊎ ((outcome ≡ raised)
                  × ((k : ℕ) × AllFail c k 3)
                  × ((n : ℕ) × (t.yielded ≡ take n all))))
            (quota_all limit)
            (fetch_from-Ends fuel limit (new_fetch c) (keep (after c 0 least) chat) refl
              (omega arith))
