-- ===== src/Pool/Counts.antt =====
-- The counts of the pool, against the tasks it has.
use tobs.Prelude.{
  ℕ, zero, suc, ◌+◌, ◌≤◌, ◌≡◌, refl, ap, subst, Option, none, some, Bool, List, [], ◌∷◌, ◌++◌,
  length, length-append, arith, ◌==◌, if◌then◌else◌, Bool-cases, inl, inr, All,
}
use tobs.Pool.{
  Pool, new_pool, pick, Op, submit, enter, cancel_waiting, return_task, raise_task, cancel_task,
  enter_on, forget, leave_on, return_on, raise_on, complete, consider_scaling, resize_pool, apply,
  run,
}

-- How many of the tasks have the semaphore i
abbrev pub count : ℕ → List ℕ → ℕ
count i [] = 0
count i (j ∷ tasks) = if i == j then suc (count i tasks) else count i tasks

-- What taking one out of the tasks leaves
abbrev pub Picked : List ℕ → Option (ℕ × List ℕ) → Type 0
Picked tasks none = Unit
Picked tasks (some (i, others)) =
    ((j : ℕ) → count j tasks ≡ count j (i ∷ others))
    × (length tasks ≡ suc (length others))
    × ((n : ℕ) → All (λ j. j ≤ n) tasks → (i ≤ n) × All (λ j. j ≤ n) others)

Picked-cons :
    (j : ℕ) (tasks : List ℕ) (o : Option (ℕ × List ℕ))
    → Picked tasks o
    → Picked (j ∷ tasks) (elim o [ none ↦ none | some found ↦ some (found.0, j ∷ found.1) ])
Picked-cons j tasks none h = tt
Picked-cons j tasks (some (i, others)) (counts, size, bounds) = (
  (λ a. ground (arith, counts a)),
  omega (arith, size),
  λ n h. ((bounds n h.1).0, (h.0, (bounds n h.1).1)),
)

pub pick-Picked : (k : ℕ) (tasks : List ℕ) → Picked tasks (pick k tasks)
unfolding pick
pick-Picked k [] = tt
pick-Picked zero (i ∷ tasks) = ((λ j. refl), refl, λ n h. h)
pick-Picked (suc k) (i ∷ tasks) = Picked-cons i tasks (pick k tasks) (pick-Picked k tasks)

pub count-append : (i : ℕ) (a b : List ℕ) → count i (a ++ b) ≡ count i a + count i b
count-append i [] b = omega arith
count-append i (j ∷ a) b = ground (arith, count-append i a b)

-- Scaling changes no count and no task.
pub record SameTasks (p q : Pool) : Type 0 where
  pub running : q.running ≡ p.running
  pub waiting : q.waiting ≡ p.waiting
  pub active : q.active_tasks ≡ p.active_tasks
  pub queued : q.queued_tasks ≡ p.queued_tasks

pub complete-SameTasks : (now task_time : ℕ) (p : Pool) → SameTasks p (complete now task_time p)
unfolding consider_scaling resize_pool
complete-SameTasks now task_time p = record {
  running = ground arith;
  waiting = ground arith;
  active = ground arith;
  queued = ground arith;
}

-- How many waiting tasks the calls cancel
abbrev pub cancelled_in : Op → Pool → ℕ
cancelled_in submit p = 0
cancelled_in (enter k) p = 0
cancelled_in (cancel_waiting k) p = elim (pick k p.waiting) [ none ↦ 0 | some found ↦ 1 ]
cancelled_in (return_task k now task_time) p = 0
cancelled_in (raise_task k) p = 0
cancelled_in (cancel_task k) p = 0

abbrev pub cancelled_while_waiting : List Op → Pool → ℕ
cancelled_while_waiting [] p = 0
cancelled_while_waiting (op ∷ ops) p = cancelled_in op p + cancelled_while_waiting ops (apply op p)

record CountInv (lost : ℕ) (p : Pool) : Type 0 where
  active : p.active_tasks ≡ length p.running
  queued : p.queued_tasks ≡ length p.waiting + lost

enter-CountInv :
    (lost : ℕ) (p : Pool) (o : Option (ℕ × List ℕ))
    → Picked p.waiting o
    → CountInv lost p
    → CountInv lost (enter_on o p)
enter-CountInv lost p none h inv = inv
enter-CountInv lost p (some (i, others)) (counts, size, bounds) inv =
    elim (Bool-cases (p.values i == 0)) [
      | inl e ↦ rw e inv
      | inr e ↦ rw e (record {
        active = omega (arith, inv.active, length-append p.running (i ∷ []));
        queued = omega (arith, inv.queued, size);
      })
    ]

apply-CountInv :
    (lost : ℕ) (op : Op) (p : Pool)
    → CountInv lost p
    → CountInv (lost + cancelled_in op p) (apply op p)
unfolding apply
apply-CountInv lost submit p inv = record {
  active = inv.active;
  queued = omega (arith, inv.queued, length-append p.waiting (p.semaphore ∷ []));
}
apply-CountInv lost (enter k) p inv =
    subst (λ n. CountInv n (enter_on (pick k p.waiting) p)) (omega arith)
      (enter-CountInv lost p (pick k p.waiting) (pick-Picked k p.waiting) inv)
apply-CountInv lost (cancel_waiting k) p inv = go (pick k p.waiting) (pick-Picked k p.waiting)
  where
    go :
        (o : Option (ℕ × List ℕ))
        → Picked p.waiting o
        → CountInv (lost + elim o [ none ↦ 0 | some found ↦ 1 ]) (forget o p)
    go none h = record { active = inv.active; queued = omega (arith, inv.queued) }
    go (some (i, others)) (counts, size, bounds) = record {
      active = inv.active;
      queued = omega (arith, inv.queued, size);
    }
apply-CountInv lost (return_task k now task_time) p inv =
    go (pick k p.running) (pick-Picked k p.running)
  where
    go :
        (o : Option (ℕ × List ℕ))
        → Picked p.running o
        → CountInv (lost + 0) (return_on o now task_time p)
    go none h = record { active = inv.active; queued = omega (arith, inv.queued) }
    go (some (i, others)) (counts, size, bounds) =
        let same = complete-SameTasks now task_time p in
        record {
          active = omega (arith, same.active, inv.active, size);
          queued = omega (arith, same.queued, ap length same.waiting, inv.queued);
        }
apply-CountInv lost (raise_task k) p inv = go (pick k p.running) (pick-Picked k p.running)
  where
    go : (o : Option (ℕ × List ℕ)) → Picked p.running o → CountInv (lost + 0) (raise_on o p)
    go none h = record { active = inv.active; queued = omega (arith, inv.queued) }
    go (some (i, others)) (counts, size, bounds) = record {
      active = omega (arith, inv.active, size);
      queued = omega (arith, inv.queued);
    }
apply-CountInv lost (cancel_task k) p inv = go (pick k p.running) (pick-Picked k p.running)
  where
    go : (o : Option (ℕ × List ℕ)) → Picked p.running o → CountInv (lost + 0) (leave_on o p)
    go none h = record { active = inv.active; queued = omega (arith, inv.queued) }
    go (some (i, others)) (counts, size, bounds) = record {
      active = omega (arith, inv.active, size);
      queued = omega (arith, inv.queued);
    }

run-CountInv :
    (lost : ℕ) (ops : List Op) (p : Pool)
    → CountInv lost p
    → CountInv (lost + cancelled_while_waiting ops p) (run ops p)
run-CountInv lost [] p inv = record { active = inv.active; queued = omega (arith, inv.queued) }
run-CountInv lost (op ∷ ops) p inv =
    let rest =
      run-CountInv (lost + cancelled_in op p) ops (apply op p) (apply-CountInv lost op p inv) in
    record { active = rest.active; queued = omega (arith, rest.queued) }

-- After any operations on a new pool, the count of active tasks is the number of those that run, and
-- the count of queued tasks is the number of those that wait together with all that were cancelled while
-- they waited: for each of these the count stays one too high for good.
pub run-counts :
    (max_workers started : ℕ) (auto_scale : Bool) (ops : List Op)
    → let p = run ops (new_pool max_workers auto_scale started) in
      (p.active_tasks ≡ length p.running)
      × (p.queued_tasks
          ≡ length p.waiting
            + cancelled_while_waiting ops (new_pool max_workers auto_scale started))
run-counts max_workers started auto_scale ops =
    let inv =
      run-CountInv 0 ops (new_pool max_workers auto_scale started)
        (record { active = refl; queued = refl }) in
    (inv.active, omega (arith, inv.queued))
