-- ===== src/Pool/Capacity.antt =====
-- How many tasks the present semaphore of the pool lets in.
use tobs.Prelude.{
  ℕ, suc, ◌+◌, ◌-◌, ◌≤◌, ◌≡◌, ◌⊎◌, min, max, refl, ap, Option, none, some, Bool, true, false, List,
  [], ◌∷◌, ◌++◌, arith, ◌==◌, ltb, if◌then◌else◌, Bool-cases, inl, inr, All, All-append,
}
use tobs.Pool.{
  Pool, pick, Op, submit, enter, cancel_waiting, return_task, raise_task, cancel_task, enter_on,
  forget, leave, leave_on, return_on, raise_on, complete, consider_scaling, scale, resize_pool,
  wants_more, wants_less, apply, last_20,
}
use tobs.Pool.Counts.{count, count-append, Picked, pick-Picked, complete-SameTasks}

-- The free places of the present semaphore, with the tasks that hold it
abbrev pub capacity : Pool → ℕ
capacity p = p.values p.semaphore + count p.semaphore p.running

-- The tasks hold semaphores that exist.
pub record IsKnown (p : Pool) : Type 0 where
  pub running : All (λ i. i ≤ p.semaphore) p.running
  pub waiting : All (λ i. i ≤ p.semaphore) p.waiting

All-later : (n m : ℕ) (tasks : List ℕ) → n ≤ m → All (λ i. i ≤ n) tasks → All (λ i. i ≤ m) tasks
All-later n m [] h k = tt
All-later n m (i ∷ tasks) h k = (omega (arith, k.0), All-later n m tasks h k.1)

count_unknown : (n : ℕ) (tasks : List ℕ) → All (λ i. i ≤ n) tasks → count (suc n) tasks ≡ 0
count_unknown n [] h = refl
count_unknown n (i ∷ tasks) h = ground (arith, count_unknown n tasks h.1)

-- The capacity that a new semaphore starts with
abbrev pub granted : ℕ → Pool → ℕ
granted new_size p = new_size - min (p.max_workers - p.values p.semaphore) new_size

-- Scaling leaves the semaphore, or makes a new one of the granted capacity.
abbrev Rescales : Pool → Pool → Type 0
Rescales p q =
    ((q.semaphore ≡ p.semaphore) × (q.values ≡ p.values) × (q.max_workers ≡ p.max_workers))
    ⊎ ((q.semaphore ≡ suc p.semaphore) × (q.values q.semaphore ≡ granted q.max_workers p))

resize-Rescales : (new_size : ℕ) (p : Pool) → Rescales p (resize_pool new_size p)
unfolding resize_pool
resize-Rescales new_size p = inr (omega arith, ground arith)

if-Rescales :
    (b : Bool) (p q r : Pool) → Rescales p q → Rescales p r → Rescales p (if b then q else r)
if-Rescales true p q r h k = h
if-Rescales false p q r h k = k

scale-Rescales : (p : Pool) → Rescales p (scale p)
scale-Rescales p =
    if-Rescales (wants_more p) p _ _ (resize-Rescales (min (p.max_workers + 2) 20) p) (
      if-Rescales (wants_less p) p _ _ (resize-Rescales (max (p.max_workers - 1) 2) p)
        (inl (refl, refl, refl)))

consider-Rescales : (now : ℕ) (p : Pool) → Rescales p (consider_scaling now p)
unfolding consider_scaling
consider-Rescales now p =
    if-Rescales (ltb (now - p.last_scale_time) 30000000) p p
      (record (scale p) { last_scale_time = now }) (inl (refl, refl, refl)) (scale-Rescales p)

complete-Rescales : (now task_time : ℕ) (p : Pool) → Rescales p (complete now task_time p)
complete-Rescales now task_time p =
    let counted = record p {
      completed_tasks = p.completed_tasks + 1;
      performance_history = last_20 (p.performance_history ++ task_time ∷ []);
    } in
    if-Rescales p.auto_scale p (consider_scaling now counted) counted
      (consider-Rescales now counted) (inl (refl, refl, refl))

-- What one operation does: it keeps the semaphore, its capacity and the number of workers, or makes a
-- new semaphore of the granted capacity.
pub record Moves (p q : Pool) : Type 0 where
  pub known : IsKnown q
  pub moves :
      ((q.semaphore ≡ p.semaphore) × (capacity q ≡ capacity p) × (q.max_workers ≡ p.max_workers))
      ⊎ ((q.semaphore ≡ suc p.semaphore) × (capacity q ≡ granted q.max_workers p))

same-Moves : (p : Pool) → IsKnown p → Moves p p
same-Moves p h = record { known = h; moves = inl (refl, refl, refl) }

enter-Moves :
    (p : Pool) (o : Option (ℕ × List ℕ)) → Picked p.waiting o → IsKnown p → Moves p (enter_on o p)
enter-Moves p none h known = same-Moves p known
enter-Moves p (some (i, others)) (counts, size, bounds) known =
    elim (Bool-cases (p.values i == 0)) [
      | inl e ↦ rw e (same-Moves p known)
      | inr e ↦
          let (new, rest) = bounds p.semaphore known.waiting in
          rw e (record {
            known = record {
              running =
                  All-append (λ j. j ≤ p.semaphore) p.running (i ∷ []) known.running (new, tt);
              waiting = rest;
            };
            moves =
                inl (refl, ground (arith, e, count-append p.semaphore p.running (i ∷ [])), refl);
          })
    ]

-- A task leaves after the pool has been rescaled.
leave-Moves :
    (p q : Pool) (i : ℕ) (others : List ℕ)
    → Picked p.running (some (i, others))
    → IsKnown p
    → q.waiting ≡ p.waiting
    → Rescales p q
    → Moves p (leave i others q)
leave-Moves p q i others (counts, size, bounds) known same (inl (semaphore, values, workers)) =
    record {
      known = record {
        running = rw semaphore (bounds p.semaphore known.running).1;
        waiting = rw (semaphore, same) known.waiting;
      };
      moves =
          inl (semaphore, (rw (semaphore, values) (ground (arith, counts p.semaphore))), workers);
    }
leave-Moves p q i others (counts, size, bounds) known same (inr (semaphore, value)) =
    let (old, rest) = bounds p.semaphore known.running in
    record {
      known = record {
        running = rw semaphore (All-later p.semaphore (suc p.semaphore) others (omega arith) rest);
        waiting =
            rw (semaphore, same)
              (All-later p.semaphore (suc p.semaphore) p.waiting (omega arith) known.waiting);
      };
      moves = inr (
        semaphore,
        ground (
          arith,
          value,
          semaphore,
          old,
          ap (λ n. count n others) semaphore,
          count_unknown p.semaphore others rest,
        ),
      );
    }

return-Moves :
    (now task_time : ℕ) (p : Pool) (o : Option (ℕ × List ℕ))
    → Picked p.running o
    → IsKnown p
    → Moves p (return_on o now task_time p)
return-Moves now task_time p none h known = same-Moves p known
return-Moves now task_time p (some (i, others)) h known =
    leave-Moves p (complete now task_time p) i others h known
      (complete-SameTasks now task_time p).waiting (complete-Rescales now task_time p)

raise-Moves :
    (p : Pool) (o : Option (ℕ × List ℕ)) → Picked p.running o → IsKnown p → Moves p (raise_on o p)
raise-Moves p none h known = same-Moves p known
raise-Moves p (some (i, others)) h known =
    leave-Moves p (record p { failed_tasks = p.failed_tasks + 1 }) i others h known refl
      (inl (refl, refl, refl))

cancel-Moves :
    (p : Pool) (o : Option (ℕ × List ℕ)) → Picked p.running o → IsKnown p → Moves p (leave_on o p)
cancel-Moves p none h known = same-Moves p known
cancel-Moves p (some (i, others)) h known =
    leave-Moves p p i others h known refl (inl (refl, refl, refl))

forget-Moves :
    (p : Pool) (o : Option (ℕ × List ℕ)) → Picked p.waiting o → IsKnown p → Moves p (forget o p)
forget-Moves p none h known = same-Moves p known
forget-Moves p (some (i, others)) (counts, size, bounds) known = record {
  known = record { running = known.running; waiting = (bounds p.semaphore known.waiting).1 };
  moves = inl (refl, refl, refl);
}

pub apply-Moves : (op : Op) (p : Pool) → IsKnown p → Moves p (apply op p)
unfolding apply
apply-Moves submit p known = record {
  known = record {
    running = known.running;
    waiting =
        All-append (λ j. j ≤ p.semaphore) p.waiting (p.semaphore ∷ []) known.waiting
          (omega arith, tt);
  };
  moves = inl (refl, refl, refl);
}
apply-Moves (enter k) p known = enter-Moves p (pick k p.waiting) (pick-Picked k p.waiting) known
apply-Moves (cancel_waiting k) p known =
    forget-Moves p (pick k p.waiting) (pick-Picked k p.waiting) known
apply-Moves (return_task k now task_time) p known =
    return-Moves now task_time p (pick k p.running) (pick-Picked k p.running) known
apply-Moves (raise_task k) p known =
    raise-Moves p (pick k p.running) (pick-Picked k p.running) known
apply-Moves (cancel_task k) p known =
    cancel-Moves p (pick k p.running) (pick-Picked k p.running) known
