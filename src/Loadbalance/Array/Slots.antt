-- ===== src/Loadbalance/Array/Slots.antt =====
-- The array holds the names of the free workers in order, and NULL behind them.
use zmq_test.Common.{
  ℕ, zero, suc, ◌<◌, ◌≡◌, refl, ap, Option, none, some, List, [], ◌∷◌, ◌++◌, set, length, replicate,
  arith,
}
use zmq_test.Loadbalance.Array.{Name, dequeue}

-- An array of n entries that starts with these names.
abbrev pub slots : ℕ → List Name → List (Option Name)
slots n [] = replicate n none
slots zero (id ∷ ids) = []
slots (suc n) (id ∷ ids) = some id ∷ slots n ids

-- The write behind the last name adds a name.
pub set-slots :
    (n : ℕ) (ids : List Name) (id : Name)
    → length ids < n
    → set (slots n ids) (length ids) (some id) ≡ slots n (ids ++ id ∷ [])
set-slots zero ids id h = absurd (omega arith)
set-slots (suc n) [] id h = refl
set-slots (suc n) (x ∷ ids) id h = ap (◌∷◌ (some x)) (set-slots n ids id (omega arith))

dequeue-replicate : (n : ℕ) → dequeue (replicate n none) ≡ replicate n none
unfolding dequeue
dequeue-replicate zero = refl
dequeue-replicate (suc zero) = refl
dequeue-replicate (suc (suc n)) = ap (◌∷◌ none) (dequeue-replicate (suc n))

-- The move drops the first name, if the last entry is NULL.
pub dequeue-slots :
    (n : ℕ) (id : Name) (ids : List Name)
    → length (id ∷ ids) < n
    → dequeue (slots n (id ∷ ids)) ≡ slots n ids
unfolding dequeue
dequeue-slots zero id ids h = absurd (omega arith)
dequeue-slots (suc zero) id ids h = absurd (omega arith)
dequeue-slots (suc (suc n)) id [] h = ap (◌∷◌ none) (dequeue-replicate (suc n))
dequeue-slots (suc (suc n)) id (x ∷ ids) h =
    ap (◌∷◌ (some x)) (dequeue-slots (suc n) x ids (omega arith))
