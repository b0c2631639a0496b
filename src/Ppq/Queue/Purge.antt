-- ===== src/Ppq/Queue/Purge.antt =====
-- `_worker_purge` stops at the first worker that has not expired: in a list in the order of expiry
-- that leaves no expired worker behind.
use zmq_test.Common.{
  ℕ, zero, suc, ◌≤◌, ◌<◌, ◌≡◌, refl, sym, ap, subst, ◌∙◌, ◌+◌, ◌-◌, ◌⊎◌, inl, inr, List, [], ◌∷◌,
  ◌++◌, head?, length, All, All-mono, ltb, ltb→lt, ltb→le, Bool-cases, arith,
}
use zmq_test.Czmq.{Zlist, first-cursor}
use zmq_test.Ppq.Defs.{Worker}
use zmq_test.Ppq.Queue.{Broker, purge_scan, worker_purge}

-- The workers stand in the order of their expiry.
abbrev pub Sorted : List Worker → Type 0
Sorted [] = Unit
Sorted (w ∷ ws) = All (λ v. w.expiry ≤ v.expiry) ws × Sorted ws

-- Each worker had expired at a reading of its own, one reading after the other.
abbrev pub Expired : (ℕ → ℕ) → ℕ → List Worker → Type 0
Expired clock reads [] = Unit
Expired clock reads (w ∷ ws) = (w.expiry ≤ clock reads) × Expired clock (suc reads) ws

-- `ys` is what is left of `xs`, where the readings from `reads` on, those before `reads'`, were
-- made: one for each worker that is gone, and a last one if a worker is left.
pub record Purged (clock : ℕ → ℕ) (reads : ℕ) (xs ys : List Worker) (reads' : ℕ) : Type 0 where
  pub gone : List Worker
  pub split : xs ≡ gone ++ ys
  pub expired : Expired clock reads gone
  pub looked :
      ((ys ≡ []) × (reads' ≡ reads + length gone))
      ⊎ ((reads' ≡ reads + length gone + 1) × All (λ w. clock (reads + length gone) < w.expiry) ys)

Sorted-alive :
    (t : ℕ) (w : Worker) (ws : List Worker)
    → t < w.expiry
    → Sorted (w ∷ ws)
    → All (λ v. t < v.expiry) (w ∷ ws)
Sorted-alive t w ws h s = (h, All-mono _ (λ v. t < v.expiry) (λ v k. omega arith) ws s.0)

-- What the end of the purge says of its last reading.
pub Purged-alive :
    (clock : ℕ → ℕ) (reads reads' : ℕ) (xs ys : List Worker)
    → Purged clock reads xs ys reads'
    → (reads ≤ reads') × All (λ w. clock (reads' - 1) < w.expiry) ys
Purged-alive clock reads reads' xs ys p = elim p.looked [
  | inl (e, n) ↦ (omega (arith, n), rw e tt)
  | inr (n, h) ↦
      let last : reads + length p.gone ≡ reads' - 1 = omega (arith, n) in
      (omega (arith, n), subst (λ k. All (λ w. clock k < w.expiry) ys) last h)
]

zero-right : (n : ℕ) → n ≡ n + 0
zero-right n = omega arith

module _ (Z : Zlist Worker) (clock : ℕ → ℕ) where
  open Z use {Carrier, items, first, remove, items-remove, items-first, size, size_lem}

  Purged-cons :
      (reads reads' : ℕ) (w : Worker) (ws ys : List Worker)
      → w.expiry ≤ clock reads
      → Purged clock (suc reads) ws ys reads'
      → Purged clock reads (w ∷ ws) ys reads'
  Purged-cons reads reads' w ws ys over p =
      let next : suc reads + length p.gone ≡ reads + suc (length p.gone) = omega arith in
      record {
        gone = w ∷ p.gone;
        split = ap (◌∷◌ w) p.split;
        expired = (over, p.expired);
        looked = elim p.looked [
          | inl (e, n) ↦ inl (e, n ∙ next)
          | inr (n, h) ↦
              inr (n ∙ ap (λ k. k + 1) next, subst (λ k. All (λ v. clock k < v.expiry) ys) next h)
        ];
      }

  purge_scan-Purged :
      (fuel reads : ℕ) (xs : List Worker) (l : Carrier)
      → items l ≡ xs
      → Sorted xs
      → length xs < fuel
      → let (l', reads') = purge_scan Z clock fuel reads (head? xs, l) in
        Purged clock reads xs (items l') reads'
  unfolding purge_scan
  purge_scan-Purged zero reads xs l e s h = absurd (omega arith)
  purge_scan-Purged (suc fuel) reads [] l e s h = record {
    gone = [];
    split = sym e;
    expired = tt;
    looked = inl (e, omega arith);
  }
  purge_scan-Purged (suc fuel) reads (w ∷ ws) l e s h =
      elim (Bool-cases (ltb (clock reads) w.expiry)) [
        | inl alive ↦ rw alive (record {
          gone = [];
          split = sym e;
          expired = tt;
          looked = inr (
            omega arith,
            subst (λ k. All (λ v. clock k < v.expiry) (items l)) (zero-right reads)
                (rw e (Sorted-alive (clock reads) w ws (ltb→lt _ _ alive) s)),
          );
        })
        | inr over ↦
            let left : items (remove l w) ≡ ws = items-remove l w [] ws e tt in
            let p =
              purge_scan-Purged fuel (suc reads) ws (first (remove l w)).1 (items-first _ ∙ left)
                s.1 (omega arith) in
            rw (over, first-cursor Z left) (Purged-cons reads _ w ws _ (ltb→le _ _ over) p)
      ]

  -- With the free workers in the order of their expiry, `_worker_purge` removes a front part of
  -- the list. It reads the clock once for each worker that it removes, which had expired at that
  -- reading. If it leaves any worker, it has read the clock once more, and every worker that it
  -- leaves was alive at that last reading; if it leaves none, it has read it no more.
  pub worker_purge-Purged :
      (b : Broker Carrier)
      → Sorted (items b.workers)
      → let b' = worker_purge Z clock b in
        Purged clock b.reads (items b.workers) (items b'.workers) b'.reads
  unfolding worker_purge
  worker_purge-Purged b s = rw (first-cursor Z {l = b.workers} refl) (
      purge_scan-Purged (suc (size b.workers)) b.reads (items b.workers) (first b.workers).1
        (items-first b.workers) s (omega (arith, size_lem b.workers)))
