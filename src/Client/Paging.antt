-- ===== src/Client/Paging.antt =====
-- Pages of a chat in ascending order, and what is yielded of a page under a limit.
use tobs.Prelude.{
  ℕ, zero, suc, ◌+◌, ◌-◌, ◌<◌, ◌≡◌, refl, sym, subst, ◌∙◌, ap, Option, none, some, Bool, true,
  false, not, List, [], ◌∷◌, ◌++◌, length, take, drop, keep, All, All-keep, ltb, ◌&&◌, arith, inl,
  inr, Bool-cases,
}
use tobs.Client.{Client, is_reached, yield_batch, last_id}

-- What is left of a limit
abbrev pub quota : Option ℕ → ℕ → Option ℕ
quota none total = none
quota (some limit) total = some (limit - total)

module _ {M : Type 0} where
  abbrev pub limited : Option ℕ → List M → List M
  limited none ms = ms
  limited (some n) ms = take n ms

  take-append :
      (n : ℕ) (xs ys : List M) → take n (xs ++ ys) ≡ take n xs ++ take (n - length (take n xs)) ys
  take-append zero xs ys = refl
  take-append (suc n) [] ys = let same : suc n ≡ suc n - 0 = omega arith in ap (λ k. take k ys) same
  take-append (suc n) (x ∷ xs) ys =
      ap (λ l. x ∷ l)
        (let same : n - length (take n xs) ≡ suc n - suc (length (take n xs)) = omega arith in
          take-append n xs ys ∙ ap (λ k. take n xs ++ take k ys) same)

  pub limited-append :
      (limit : Option ℕ) (total : ℕ) (xs ys : List M)
      → let first = limited (quota limit total) xs in
        limited (quota limit total) (xs ++ ys)
        ≡ first ++ limited (quota limit (total + length first)) ys
  limited-append none total xs ys = refl
  limited-append (some limit) total xs ys =
      let used = length (take (limit - total) xs) in
      let same : limit - total - used ≡ limit - (total + used) = omega arith in
      take-append (limit - total) xs ys ∙ ap (λ k. take (limit - total) xs ++ take k ys) same

  pub limited_none_left :
      (limit : Option ℕ) (total : ℕ) (ms : List M)
      → is_reached limit total ≡ true
      → limited (quota limit total) ms ≡ []
  limited_none_left none total ms h = cc
  limited_none_left (some limit) total ms h =
      let zero_left : limit - total ≡ 0 = ground arith in ap (λ k. take k ms) zero_left

module _ {M : Type 0} (c : Client M) where
  -- The messages that are yielded of a page
  abbrev pub wanted : List M → List M
  wanted ms = keep (λ m. not (c.has_action m)) ms

  pub yield_batch-limited :
      (limit : Option ℕ) (batch : List M) (total : ℕ)
      → is_reached limit total ≡ false
      → let (messages, total') = yield_batch c limit batch total in
        (messages ≡ limited (quota limit total) (wanted batch)) × (total' ≡ total + length messages)
  unfolding yield_batch
  yield_batch-limited none [] total h = (refl, omega arith)
  yield_batch-limited (some limit) [] total h = (sym (take_nil (limit - total)), omega arith)
    where
      take_nil : (n : ℕ) → take {A = M} n [] ≡ []
      take_nil zero = refl
      take_nil (suc n) = refl
  yield_batch-limited limit (m ∷ ms) total h = elim (Bool-cases (c.has_action m)) [
    | inl action ↦ rw action (yield_batch-limited limit ms total h)
    | inr message ↦ elim (Bool-cases (is_reached limit (total + 1))) [
      | inl last ↦ rw (message, last) (sym (one_left limit last h), omega arith)
      | inr more ↦
          let (rest, count) = yield_batch-limited limit ms (total + 1) more in
          rw (message, more)
            (ap (λ l. m ∷ l) rest ∙ sym (more_left limit h more), omega (arith, count))
    ]
  ]
    where
      one_left :
          (lim : Option ℕ)
          → is_reached lim (total + 1) ≡ true
          → is_reached lim total ≡ false
          → limited (quota lim total) (m ∷ wanted ms) ≡ m ∷ []
      one_left none a b = cc
      one_left (some n) a b =
          let one : n - total ≡ 1 = ground arith in ap (λ k. take k (m ∷ wanted ms)) one

      more_left :
          (lim : Option ℕ)
          → is_reached lim total ≡ false
          → is_reached lim (total + 1) ≡ false
          → limited (quota lim total) (m ∷ wanted ms)
            ≡ m ∷ limited (quota lim (total + 1)) (wanted ms)
      more_left none a b = refl
      more_left (some n) a b =
          let more : n - total ≡ suc (n - (total + 1)) = ground arith in
          ap (λ k. take k (m ∷ wanted ms)) more

  abbrev pub Ascending : List M → Type 0
  Ascending [] = Unit
  Ascending (m ∷ ms) = All (λ n. c.id m < c.id n) ms × Ascending ms

  -- The messages of the client for an offset and a least id
  abbrev pub after : ℕ → ℕ → M → Bool
  after offset_id min_id m = ltb offset_id (c.id m) && ltb min_id (c.id m)

  last_id-above :
      (k : ℕ) (m : M) (ms rest : List M)
      → All (λ n. k < c.id n) (m ∷ ms ++ rest)
      → k < last_id c m ms
  last_id-above k m [] rest h = h.0
  last_id-above k m (n ∷ ms) rest h = last_id-above k n ms rest h.1

  keep-above : (off min : ℕ) (ms : List M) → All (λ n. off < c.id n) (keep (after off min) ms)
  keep-above off min [] = tt
  keep-above off min (m ∷ ms) = elim (Bool-cases (after off min m)) [
    | inl e ↦ let above : off < c.id m = ground arith in rw e (above, keep-above off min ms)
    | inr e ↦ rw e (keep-above off min ms)
  ]

  keep_same :
      (off bound min : ℕ) (ms : List M)
      → off < bound
      → min < bound
      → All (λ n. bound < c.id n) ms
      → keep (after bound min) ms ≡ keep (after off min) ms
  keep_same off bound min [] h k above = refl
  keep_same off bound min (m ∷ ms) h k above =
      let first : after bound min m ≡ true = let far = above.0 in ground arith in
      let second : after off min m ≡ true = let far = above.0 in ground arith in
      rw (first, second) (ap (λ l. m ∷ l) (keep_same off bound min ms h k above.1))

  -- The messages after the last one of a page are those after the page.
  pub keep_next :
      (off min : ℕ) (chat : List M) (m : M) (ms rest : List M)
      → Ascending chat
      → keep (after off min) chat ≡ m ∷ ms ++ rest
      → keep (after (last_id c m ms) min) chat ≡ rest
  keep_next off min [] m ms rest asc e = absurd (omega (arith, ap length e))
  keep_next off min (d ∷ chat) m ms rest asc e = elim (Bool-cases (after off min d)) [
    | inr before ↦
        let e' = rw before at e in
        let above =
          last_id-above off m ms rest
            (subst (All (λ n. off < c.id n)) e' (keep-above off min chat)) in
        let still : after (last_id c m ms) min d ≡ false = ground arith in
        rw still (keep_next off min chat m ms rest asc.1 e')
    | inl first ↦
        let e' = rw first at e in
        let same : c.id d ≡ c.id m = ap (λ l. elim l [ [] ↦ c.id d | x ∷ xs ↦ c.id x ]) e' in
        taken (λ n ns. keep_next off min chat n ns rest asc.1) first same ms (ap (drop 1) e')
  ]
    where
      taken :
          ((n : M) (ns : List M)
            → keep (after off min) chat ≡ n ∷ ns ++ rest
            → keep (after (last_id c n ns) min) chat ≡ rest)
          → after off min d ≡ true
          → c.id d ≡ c.id m
          → (ns : List M) → keep (after off min) chat ≡ ns ++ rest
          → keep (after (last_id c m ns) min) (d ∷ chat) ≡ rest
      taken rec first same [] tail =
          let passed : after (c.id m) min d ≡ false = ground arith in
          let off_below : off < c.id m = ground arith in
          let min_below : min < c.id m = ground arith in
          let above = subst (λ k. All (λ n. k < c.id n) chat) same asc.0 in
          rw passed (keep_same off (c.id m) min chat off_below min_below above ∙ tail)
      taken rec first same (n ∷ ns) tail =
          let above = last_id-above (c.id d) n ns rest (
            subst (All (λ x. c.id d < c.id x)) tail
              (All-keep (λ x. c.id d < c.id x) (after off min) chat asc.0)) in
          let passed : after (last_id c n ns) min d ≡ false = ground arith in
          rw passed (rec n ns tail)
