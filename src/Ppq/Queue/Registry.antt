-- ===== src/Ppq/Queue/Registry.antt =====
-- The list of free workers: what `_worker_ready`, `_worker_next` and the heartbeat loop do to it.
use zmq_test.Common.{
  ℕ, zero, suc, ◌<◌, ◌≡◌, ◌≢◌, refl, sym, ap, ◌∙◌, inl, inr, none, some, List, map, [], ◌∷◌, ◌++◌,
  head?, tail, append_assoc, length, All, All-append, All-mono, streq, streq→eq, streq→ne,
  Bool-cases, if◌then◌else◌, arith,
}
use zmq_test.Czmq.{Zlist, first-cursor, next-cursor, pop-cursor}
use zmq_test.Ppq.Defs.{Worker, ppp_heartbeat}
use zmq_test.Ppq.Queue.{Effect, to_backend, ready_scan, worker_ready, worker_next, heartbeat_scan}

-- No worker of the list has this name.
abbrev pub Unnamed : List ℕ → List Worker → Type 0
Unnamed id = All λ w. w.id_string ≢ id

-- The list without the first worker of a name.
unfoldable pub drop_id : List ℕ → List Worker → List Worker
drop_id id [] = []
drop_id id (w ∷ ws) = if streq id w.id_string then ws else w ∷ drop_id id ws

-- A heartbeat for each worker.
abbrev pub beats : List Worker → List Effect
beats = map λ w. to_backend (w.identity ∷ ppp_heartbeat ∷ [])

module _ (Z : Zlist Worker) where
  open Z use {
    Carrier, items, rest, size, first, next, append, remove, items-remove, items-next, rest-next,
    items-append, items-first, rest-first, size_lem,
  }

  ready_scan_lem :
      (fuel : ℕ) (self : Worker) (xs ys : List Worker) (l : Carrier)
      → items l ≡ xs ++ ys
      → rest l ≡ tail ys
      → Unnamed self.id_string xs
      → length ys < fuel
      → items (ready_scan Z fuel self (head? ys, l)) ≡ xs ++ drop_id self.id_string ys
  unfolding ready_scan drop_id
  ready_scan_lem zero self xs ys l e r u h = absurd (omega arith)
  ready_scan_lem (suc fuel) self xs [] l e r u h = e
  ready_scan_lem (suc fuel) self xs (y ∷ ys) l e r u h =
      elim (Bool-cases (streq self.id_string y.id_string)) [
        | inl hit ↦ rw hit (
            items-remove l y xs ys e (
              All-mono _ _
                (λ w n q. n (ap (λ (x : Worker). x.id_string) q ∙ sym (streq→eq _ _ hit))) xs u))
        | inr miss ↦
            rw (miss, next-cursor Z r, ← append_assoc xs (y ∷ []) (drop_id self.id_string ys))
              (ready_scan_lem fuel self (xs ++ y ∷ []) ys (next l).1
                (items-next l ∙ e ∙ sym (append_assoc xs (y ∷ []) ys)) (rest-next l ∙ ap tail r)
                (All-append _ xs (y ∷ []) u ((λ q. streq→ne _ _ miss (sym q)), tt)) (omega arith))
      ]

  -- `_worker_ready` takes the first worker of that name out of the list, wherever it stands, and
  -- puts the new one at the end.
  pub items-worker_ready :
      (self : Worker) (l : Carrier)
      → items (worker_ready Z self l) ≡ drop_id self.id_string (items l) ++ self ∷ []
  unfolding worker_ready
  items-worker_ready self l =
      items-append _ self
      ∙ ap (λ xs. xs ++ self ∷ [])
          (rw (first-cursor Z refl) (
            ready_scan_lem (suc (size l)) self [] (items l) (first l).1 (items-first l)
              (rest-first l) tt (omega (arith, size_lem l))))

  -- `_worker_next` fails on the empty list, and takes the first worker off any other.
  pub worker_next-nil : (l : Carrier) → items l ≡ [] → worker_next Z l ≡ none
  unfolding worker_next
  worker_next-nil l e = rw (pop-cursor Z e)

  pub worker_next-cons :
      (l : Carrier) (w : Worker) (ws : List Worker)
      → items l ≡ w ∷ ws
      → (l' : Carrier) × (worker_next Z l ≡ some (w.identity, l')) × (items l' ≡ ws)
  unfolding worker_next
  worker_next-cons l w ws e = ((Z.pop l).1, rw (pop-cursor Z e), Z.items-pop l ∙ ap tail e)

  heartbeat_scan_lem :
      (fuel : ℕ) (ys : List Worker) (l : Carrier)
      → rest l ≡ tail ys
      → length ys < fuel
      → let (sent, l') = heartbeat_scan Z fuel (head? ys, l) in
        (sent ≡ beats ys) × (items l' ≡ items l)
  unfolding heartbeat_scan
  heartbeat_scan_lem zero ys l r h = absurd (omega arith)
  heartbeat_scan_lem (suc fuel) [] l r h = (refl, refl)
  heartbeat_scan_lem (suc fuel) (y ∷ ys) l r h =
      let (sent, same) =
        heartbeat_scan_lem fuel ys (next l).1 (rest-next l ∙ ap tail r) (omega arith) in
      rw (next-cursor Z r)
        (ap (λ es. to_backend (y.identity ∷ ppp_heartbeat ∷ []) ∷ es) sent, same ∙ items-next l)

  -- The loop of heartbeats sends one to each worker of the list, in its order.
  pub heartbeat_scan-beats :
      (l : Carrier)
      → let (sent, l') = heartbeat_scan Z (suc (size l)) (first l) in
        (sent ≡ beats (items l)) × (items l' ≡ items l)
  heartbeat_scan-beats l =
      let (sent, same) =
        heartbeat_scan_lem (suc (size l)) (items l) (first l).1 (rest-first l)
          (omega (arith, size_lem l)) in
      rw (first-cursor Z {l = l} refl) (sent, same ∙ items-first l)
