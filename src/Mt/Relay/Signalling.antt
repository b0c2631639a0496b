-- ===== src/Mt/Relay/Signalling.antt =====
-- All runs of src/mt/relay.c, by a search through every order of the calls.
use zmq_test.Common.{
  ℕ, zero, suc, ◌≡◌, ◌⊎◌, refl, Option, none, some, Bool, true, false, ◌&&◌, ◌||◌, not, List, [],
  ◌∷◌, ◌++◌,
}
use zmq_test.Common.Steps.{Steps}
use zmq_test.Mt.Relay.{
  Line, step1_ready, step2_ready, test_successful, System, of_main, of_step2, of_step1, step, Step,
}

-- What the three threads print.
abbrev pub lines : List Line
lines = step1_ready ∷ step2_ready ∷ test_successful ∷ []

-- The lines that are still to be printed, if those that were are the first ones.
abbrev Left : List Line → Type 0
Left ls = (rest : List Line) × (ls ++ rest ≡ lines)

to_print : (ls : List Line) → Option (Left ls)
to_print [] = some (lines, refl)
to_print (step1_ready ∷ []) = some (step2_ready ∷ test_successful ∷ [], refl)
to_print (step1_ready ∷ step2_ready ∷ []) = some (test_successful ∷ [], refl)
to_print (step1_ready ∷ step2_ready ∷ test_successful ∷ []) = some ([], refl)
to_print _ = none

is_nil {ℓ} : {A : Type ℓ} → List A → Bool
is_nil [] = true
is_nil (x ∷ xs) = false

given {ℓ} : {A : Type ℓ} → Option A → Bool
given none = false
given (some a) = true

all_printed : (ls : List Line) → Option (Left ls) → Bool
all_printed ls (some ([], e)) = true
all_printed ls _ = false

goes_on : System → Bool
unfolding given step
goes_on s = given (step of_main s) || (given (step of_step2 s) || given (step of_step1 s))

ended : System → Bool
unfolding is_nil all_printed
ended s =
    is_nil s.in_main
    && (is_nil s.in_step2 && (is_nil s.in_step1 && all_printed s.printed (to_print s.printed)))

-- The lines come in order, no connection was refused, and the threads go on until all have ended.
good : System → Bool
unfolding to_print is_nil goes_on ended
good s = given (to_print s.printed) && (is_nil s.refused && (goes_on s || ended s))

onward : (System → Bool) → Option System → Bool
onward f none = true
onward f (some s) = f s

-- Every order of the next calls leads through such states, and there are at most n.
search : ℕ → System → Bool
unfolding good onward
search zero s = good s && not (goes_on s)
search (suc n) s =
    good s
    && (onward (search n) (step of_main s)
        && (onward (search n) (step of_step2 s) && onward (search n) (step of_step1 s)))

-- The program at its end.
abbrev pub IsEnded : System → Type 0
IsEnded s = (s.in_main ≡ []) × (s.in_step2 ≡ []) × (s.in_step1 ≡ []) × (s.printed ≡ lines)

abbrev pub IsGood : System → Type 0
IsGood s =
    ((rest : List Line) × (s.printed ++ rest ≡ lines))
    × (s.refused ≡ [])
    × (((s' : System) × Step s s') ⊎ IsEnded s)
