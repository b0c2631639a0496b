-- ===== src/Mt/Duff.antt =====
-- src/mt/duff.c, `f`: a switch into a loop, with two static variables.
use zmq_test.Common.{
  ℕ, zero, suc, ◌+◌, ◌≡◌, refl, ap, ◌∙◌, Option, none, some, false, arith, ltb, ◌==◌, if◌then◌else◌,
}

pub record Statics : Type 0 where
  pub i : ℕ
  pub state : ℕ

abbrev pub start : Statics
start = record { i = 0; state = 0 }

-- The test of the loop, and its body up to the return; `none` is the end of `f` without a value.
pub next_round : Statics → Option ℕ × Statics
next_round s = if ltb s.i 2 then (some s.i, record s { state = 1 }) else (none, s)

-- `case 0` enters the loop, `case 1` goes on behind the return.
pub f : Statics → Option ℕ × Statics
unfolding next_round
f s =
    if s.state == 0
    then next_round (record s { i = 0 })
    else if s.state == 1
    then next_round (record s { i = s.i + 1 })
    else (none, s)

-- What n calls leave.
pub calls : ℕ → Statics
unfolding f
calls zero = start
calls (suc n) = (f (calls n)).1

abbrev resumed : ℕ → Statics
resumed n = record { i = n; state = 1 }

resumed_late : (n : ℕ) → f (resumed (suc n)) ≡ (none, resumed (suc (suc n)))
unfolding f next_round
resumed_late n =
    let next : suc n + 1 ≡ suc (suc n) = omega arith in
    let late : ltb (suc (suc n)) 2 ≡ false = ground arith in rw (next, late) refl

calls-resumed : (n : ℕ) → calls (suc n) ≡ resumed n
unfolding calls f next_round
calls-resumed zero = refl
calls-resumed (suc zero) = refl
calls-resumed (suc (suc n)) =
    ap (λ s. (f s).1) (calls-resumed (suc n)) ∙ ap (λ r. r.1) (resumed_late n)

-- The first call gives 0 and the second 1; every later call ends without a value.
pub f-calls :
    (n : ℕ)
    → ((f (calls 0)).0 ≡ some 0) × ((f (calls 1)).0 ≡ some 1) × ((f (calls (suc (suc n)))).0 ≡ none)
unfolding calls f next_round
f-calls n = (refl, refl, ap (λ s. (f s).0) (calls-resumed (suc n)) ∙ ap (λ r. r.0) (resumed_late n))
