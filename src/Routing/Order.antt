-- ===== src/Routing/Order.antt =====
-- The preferred order loses no worker, and a worker of the datacenter comes first.
use mathlib.Core.List.{Permᴰ}
use mathlib.Core.List.Permᴰ
use tobs.Prelude.{
  ℕ, suc, ◌≤◌, ◌≡◌, refl, sym, ◌∙◌, ap, subst, true, false, Option, none, some, List, [], ◌∷◌, ◌++◌,
  arith, inl, inr, Bool-cases, All, All-imp, ◌⊎◌, ◌==◌,
}
use tobs.Routing.{
  is_preferred, partition, prioritize_workers_by_dc, first_or, select_best_worker_index,
}

-- The indices idx, idx + 1, … of the clients.
abbrev pub indices : ℕ → List ℕ → List ℕ
indices idx [] = []
indices idx (client_dc ∷ clients) = idx ∷ indices (suc idx) clients

-- `worker_clients[i]`, where the first client has the index idx
abbrev pub client_at : ℕ → ℕ → List ℕ → Option ℕ
client_at i idx [] = none
client_at i idx (client_dc ∷ clients) = elim (i == idx) [
  | true ↦ some client_dc
  | false ↦ client_at i (suc idx) clients
]

partition-perm :
    (target_dc idx : ℕ) (clients : List ℕ)
    → Permᴰ
        ((partition target_dc idx clients).0 ++ (partition target_dc idx clients).1)
        (indices idx clients)
unfolding partition
partition-perm target_dc idx [] = Permᴰ.nil
partition-perm target_dc idx (client_dc ∷ clients) =
    elim (Bool-cases (is_preferred target_dc client_dc)) [
      | inl e ↦ rw e (Permᴰ.cons refl (partition-perm target_dc (suc idx) clients))
      | inr e ↦ rw e (
          Permᴰ.trans
            (Permᴰ.middle idx (partition target_dc (suc idx) clients).0
              (partition target_dc (suc idx) clients).1)
            (Permᴰ.cons refl (partition-perm target_dc (suc idx) clients)))
    ]

-- The priorities for a datacenter are a permutation of the indices of all workers.
pub prioritize-perm :
    (worker_clients : List ℕ) (target_dc : ℕ)
    → Permᴰ (prioritize_workers_by_dc worker_clients target_dc) (indices 0 worker_clients)
unfolding prioritize_workers_by_dc
prioritize-perm worker_clients target_dc = partition-perm target_dc 0 worker_clients

module _ (target_dc : ℕ) where
  abbrev Chosen : ℕ → List ℕ → ℕ → Type 0
  Chosen idx clients i = (idx ≤ i) × (client_at i idx clients ≡ some target_dc)

  later :
      (idx client_dc : ℕ) (clients : List ℕ) (i : ℕ)
      → Chosen (suc idx) clients i
      → Chosen idx (client_dc ∷ clients) i
  later idx client_dc clients i (h, e) = ground arith

  preferred-Chosen :
      (idx : ℕ) (clients : List ℕ) → All (Chosen idx clients) (partition target_dc idx clients).0
  unfolding partition
  preferred-Chosen idx [] = tt
  preferred-Chosen idx (client_dc ∷ clients) =
      let rest =
        All-imp (partition target_dc (suc idx) clients).0 (later idx client_dc clients)
          (preferred-Chosen (suc idx) clients) in
      elim (Bool-cases (is_preferred target_dc client_dc)) [
        | inl e ↦ rw e (ground arith, rest)
        | inr e ↦ rw e rest
      ]

  abbrev pub NonePreferred : List ℕ → Type 0
  NonePreferred clients = All (λ client_dc. is_preferred target_dc client_dc ≡ false) clients

  none_preferred :
      (idx : ℕ) (clients : List ℕ)
      → (partition target_dc idx clients).0 ≡ []
      → NonePreferred clients
  unfolding partition
  none_preferred idx [] e = tt
  none_preferred idx (client_dc ∷ clients) e = ground (arith, none_preferred (suc idx) clients)

  -- The worker selected is connected to the datacenter, unless no worker is (or the datacenter is
  -- unknown).
  pub select_best-Chosen :
      (worker_clients : List ℕ) (i : ℕ)
      → select_best_worker_index worker_clients target_dc ≡ some i
      → (client_at i 0 worker_clients ≡ some target_dc) ⊎ NonePreferred worker_clients
  unfolding select_best_worker_index prioritize_workers_by_dc
  select_best-Chosen [] i e = inr tt
  select_best-Chosen (client_dc ∷ clients) i e =
      go (partition target_dc 0 (client_dc ∷ clients)).0 refl
    where
      go :
          (preferred : List ℕ)
          → (partition target_dc 0 (client_dc ∷ clients)).0 ≡ preferred
          → (client_at i 0 (client_dc ∷ clients) ≡ some target_dc)
            ⊎ NonePreferred (client_dc ∷ clients)
      go [] h = inr (none_preferred 0 (client_dc ∷ clients) h)
      go (idx ∷ rest) h =
          let others = (partition target_dc 0 (client_dc ∷ clients)).1 in
          let chosen =
            subst (All (Chosen 0 (client_dc ∷ clients))) h
              (preferred-Chosen 0 (client_dc ∷ clients)) in
          let first : some idx ≡ some i = sym (ap (λ p. some (first_or 0 (p ++ others))) h) ∙ e in
          let same : idx ≡ i = cc in
          inl (subst (λ j. client_at j 0 (client_dc ∷ clients) ≡ some target_dc) same chosen.0.1)
