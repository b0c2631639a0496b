-- ===== src/Task/Ventilator/Tasks.antt =====
-- What the ventilator hands out.
use zmq_test.Common.{
  ℕ, zero, suc, ◌+◌, ◌≤◌, ◌<◌, ◌^◌, ◌≡◌, refl, ap, List, [], ◌∷◌, ◌++◌, length, length-append, All,
  All-append, arith, subst,
}
use zmq_test.Czmq.{Frame}
use zmq_test.Base.Strings.{c_string, c_string-text, received, received-text}
use zmq_test.Base.Numbers.{Decimals}
use zmq_test.Base.Random.Range.{randof-le}
use zmq_test.Task.Ventilator.{Output, workload, ventilate, ventilator}

module _ (D : Decimals) where
  -- The texts of numbers from 1 to 101.
  abbrev pub IsTask : Frame → Type 0
  IsTask f = (n : ℕ) × (1 ≤ n) × (n ≤ 101) × (f ≡ D.print n)

  -- The milliseconds that tasks ask for.
  abbrev pub cost : List Frame → ℕ
  cost [] = 0
  cost (f ∷ fs) = D.atoi f + cost fs

  pub cost-append : (fs gs : List Frame) → cost (fs ++ gs) ≡ cost fs + cost gs
  cost-append [] gs = omega arith
  cost-append (f ∷ fs) gs = omega (arith, cost-append fs gs)

  -- A worker receives a task as it is.
  pub received-IsTask : (f : Frame) → IsTask f → received 256 f ≡ f
  received-IsTask f (n, a, b, e) = rw e (
      received-text 256 (D.print n) (omega (arith, D.length-print n))
        (D.print-text n (omega arith)))

  -- The output so far is k tasks that cost what was counted.
  pub record IsFair (k : ℕ) (o : Output) : Type 0 where
    pub count : length o.tasks ≡ k
    pub tasks : All IsTask o.tasks
    pub counted : cost o.tasks ≡ o.total_msec

  module _ (draw : ℕ → ℕ) (drawn : (i : ℕ) → draw i < 2 ^ 31) where
    workload-le : (i : ℕ) → workload D draw i ≤ 101
    unfolding workload
    workload-le i = omega (arith, randof-le 100 (draw i) (omega arith) (drawn i))

    workload-pos : (i : ℕ) → 1 ≤ workload D draw i
    unfolding workload
    workload-pos i = omega arith

    print-workload : (i : ℕ) → c_string (D.print (workload D draw i)) ≡ D.print (workload D draw i)
    print-workload i =
        c_string-text (D.print (workload D draw i))
          (D.print-text (workload D draw i) (omega (arith, workload-le i)))

    ventilate-IsFair :
        (left i k : ℕ) (o : Output) → IsFair k o → IsFair (k + left) (ventilate D draw left i o)
    unfolding ventilate
    ventilate-IsFair zero i k o v = record {
      count = omega (arith, v.count);
      tasks = v.tasks;
      counted = v.counted;
    }
    ventilate-IsFair (suc left) i k o v =
        let n = workload D draw i in
        let small : n ≤ 101 = workload-le i in
        let text = print-workload i in
        subst (λ m. IsFair m (ventilate D draw (suc left) i o)) (omega arith)
          (ventilate-IsFair left (i + 1) (k + 1)
            (record { tasks = o.tasks ++ c_string (D.print n) ∷ []; total_msec = o.total_msec + n })
            (record {
              count = omega (arith, length-append o.tasks (c_string (D.print n) ∷ []), v.count);
              tasks =
                  All-append IsTask o.tasks (c_string (D.print n) ∷ []) v.tasks
                    ((n, workload-pos i, small, text), tt);
              counted = omega (
                arith,
                cost-append o.tasks (c_string (D.print n) ∷ []),
                ap D.atoi text,
                D.atoi-print n (omega arith),
                v.counted,
              );
            }))

    -- A hundred tasks, which ask for as many milliseconds as the ventilator prints.
    pub ventilator-IsFair : IsFair 100 (ventilator D draw)
    unfolding ventilator
    ventilator-IsFair =
        ventilate-IsFair 100 0 0 (record { tasks = []; total_msec = 0 })
          (record { count = refl; tasks = tt; counted = refl })
