-- ===== src/Loadbalance/Whole/Tests.antt =====
-- The threads of lbbroker.c at their first step.
use zmq_test.Common.{
  ℕ, zero, suc, ◌+◌, ◌<◌, ◌≤◌, ◌≡◌, ◌⊎◌, refl, false, true, List, [], ◌∷◌, All, arith,
}
use zmq_test.Czmq.{Frame}
use zmq_test.Loadbalance.Array.Tasks.{hello}
use zmq_test.Loadbalance.Whole.{System, Step, ask, start}
use zmq_test.Common.Bag.{of_list}
use zmq_test.Common.Steps.{Steps, here, next}
use zmq_test.Loadbalance.Whole.Moves.{IsShort, IsClientName}
use zmq_test.Loadbalance.Whole.Answers.{answered, Steps-answers}

-- n names of one letter, from c on.
abbrev letters : ℕ → ℕ → List Frame
letters zero c = []
letters (suc n) c = (c ∷ []) ∷ letters n (c + 1)

abbrev clients : List Frame
clients = letters 10 b'A'

abbrev workers : List Frame
workers = letters 3 b'X'

letter-IsShort : (c : ℕ) → 1 < c → IsShort (c ∷ [])
letter-IsShort c h = (omega arith, (omega arith, tt))

letters-IsShort : (n c : ℕ) → 1 < c → All IsShort (letters n c)
letters-IsShort zero c h = tt
letters-IsShort (suc n) c h = (letter-IsShort c h, letters-IsShort n (c + 1) (omega arith))

letters-IsClientName : (n c : ℕ) → 1 < c → c + n ≤ 119 → All IsClientName (letters n c)
letters-IsClientName zero c h k = tt
letters-IsClientName (suc n) c h k = (
  (letter-IsShort c h, ground arith, ground arith),
  letters-IsClientName n (c + 1) (omega arith) (omega arith),
)

abbrev asked : System
asked = record (start clients workers) {
  unsent = letters 9 b'B';
  front = (65 ∷ [], hello (65 ∷ [])) ∷ [];
}

first_step : Steps Step (start clients workers) 1 asked
first_step = next here (ask [] (65 ∷ []) _ refl)

Steps-answers_example :
    (1 ≤ 47)
    × (((asked.over ≡ false) × ((t : System) × Step asked t))
        ⊎ ((asked.over ≡ true) × (of_list (answered asked.broker.trace) ≡ of_list clients)))
Steps-answers_example =
    Steps-answers clients workers refl refl
      (letters-IsClientName 10 b'A' (omega arith) (omega arith))
      (letters-IsShort 3 b'X' (omega arith)) first_step
