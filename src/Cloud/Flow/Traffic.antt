-- ===== src/Cloud/Flow/Traffic.antt =====
-- What comes in and goes out of src/cloud/lcflow.c, counted, and when it is well formed.
use zmq_test.Common.{
  ℕ, zero, suc, ◌+◌, ◌<◌, ◌≡◌, ◌⊎◌, refl, inl, inr, Option, none, some, Bool, true, false, List, [],
  ◌∷◌, ◌++◌, length, get_elem?, arith, if◌then◌else◌,
}
use zmq_test.Czmq.{Frame, Msg, Zmsg}
use zmq_test.Cloud.Flow.{
  Input, quiet, closed, arrived, Turn, Effect, to_cloudfe, to_cloudbe, to_localfe, to_localbe,
  Outcome, running, stopped, aborted, ◌>>=◌, taken, nothing, message,
}

-- How many requests have gone to local workers.
abbrev pub dispatched : List Effect → ℕ
dispatched [] = 0
dispatched (to_localbe m ∷ es) = suc (dispatched es)
dispatched (to_cloudfe m ∷ es) = dispatched es
dispatched (to_cloudbe m ∷ es) = dispatched es
dispatched (to_localfe m ∷ es) = dispatched es

pub dispatched-append :
    (es fs : List Effect) → dispatched (es ++ fs) ≡ dispatched es + dispatched fs
dispatched-append [] fs = omega arith
dispatched-append (to_localbe m ∷ es) fs = omega (arith, dispatched-append es fs)
dispatched-append (to_cloudfe m ∷ es) fs = dispatched-append es fs
dispatched-append (to_cloudbe m ∷ es) fs = dispatched-append es fs
dispatched-append (to_localfe m ∷ es) fs = dispatched-append es fs

pub get_elem?-some {ℓ} :
    {A : Type ℓ} (xs : List A) (i : ℕ) → i < length xs → (x : A) × (get_elem? xs i ≡ some x)
get_elem?-some [] i h = absurd (omega arith)
get_elem?-some (x ∷ xs) zero h = (x, refl)
get_elem?-some (x ∷ xs) (suc i) h = get_elem?-some xs i (omega arith)

-- The program uses no NULL, and where the loop goes on the state meets `P`.
abbrev pub Well : {S : Type 0} → (S → Type 0) → Outcome S → Type 0
Well P (running s) = P s
Well P stopped = Unit
Well P aborted = ⊥

pub Well-bind :
    {S T : Type 0} (P : S → Type 0) (Q : T → Type 0) (o : Outcome S) (f : S → Outcome T)
    → Well P o
    → ((s : S) → P s → Well Q (f s))
    → Well Q (o >>= f)
Well-bind P Q (running s) f h k = k s h
Well-bind P Q stopped f h k = tt
Well-bind P Q aborted f h k = h

module _ (C : Zmsg) where
  -- A message of a ROUTER socket whose envelope is followed by a frame.
  abbrev pub IsEnveloped : Msg → Type 0
  IsEnveloped m = (id f : Frame) × (r : Msg) × (C.unwrap m ≡ (some id, f ∷ r))

  abbrev pub IsBackend : Input → Type 0
  IsBackend (arrived m) = IsEnveloped m
  IsBackend _ = Unit

-- The receive does not fail.
abbrev pub IsFrontend : Input → Type 0
IsFrontend closed = ⊥
IsFrontend _ = Unit

-- A message that is not NULL has a frame.
abbrev pub HasFrame : Option Msg → Type 0
HasFrame none = Unit
HasFrame (some []) = ⊥
HasFrame (some (f ∷ r)) = Unit

pub HasFrame-if : (b : Bool) (f : Frame) (r : Msg) → HasFrame (if b then none else some (f ∷ r))
HasFrame-if true f r = tt
HasFrame-if false f r = tt

abbrev pub messages : Input → ℕ
messages (arrived m) = 1
messages _ = 0

-- The messages of local workers in these turns, up to the end of the program.
abbrev pub local_messages : List Turn → ℕ
local_messages [] = 0
local_messages (t ∷ ts) = messages t.localbe + local_messages ts

pub taken-cases :
    (cloudfe localfe : Input)
    → IsFrontend cloudfe
    → IsFrontend localfe
    → (taken cloudfe localfe ≡ nothing)
      ⊎ ((reroutable : Bool) × (m : Msg) × (taken cloudfe localfe ≡ message reroutable m))
unfolding taken
taken-cases (arrived m) l h k = inr (false, m, refl)
taken-cases closed l h k = absurd h
taken-cases quiet (arrived m) h k = inr (true, m, refl)
taken-cases quiet closed h k = absurd k
taken-cases quiet quiet h k = inl refl
