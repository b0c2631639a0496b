-- ===== src/Task/Sink/Counting.antt =====
-- What the sink counts, and what it tells the workers.
use zmq_test.Common.{ℕ, ◌+◌, ◌<◌, ◌≡◌, refl, inl, inr, List, [], ◌∷◌, ◌++◌, arith, ◌==◌, Bool-cases}
use zmq_test.Czmq.{Frame}
use zmq_test.Task.Sink.{Sink, idle, collecting, done, kill, on_message}

-- The messages that the sink has seen.
abbrev pub seen : Sink → ℕ
seen idle = 0
seen (collecting n start_time marks) = n + 1
seen (done elapsed marks) = 101

abbrev pub InRange : Sink → Type 0
InRange idle = Unit
InRange (collecting n start_time marks) = n < 100
InRange (done elapsed marks) = Unit

-- What is to be told to the workers.
abbrev pub Tells : Sink → List Frame → Type 0
Tells idle fs = fs ≡ []
Tells (collecting n start_time marks) fs = fs ≡ []
Tells (done elapsed marks) fs = fs ≡ kill ∷ []

abbrev pub IsDone : Sink → Type 0
IsDone idle = ⊥
IsDone (collecting n start_time marks) = ⊥
IsDone (done elapsed marks) = Unit

pub on_message-seen :
    (k : Sink) (f : Frame) (now : ℕ)
    → seen k < 101
    → InRange k
    → (seen (on_message k f now).0 ≡ seen k + 1) × InRange (on_message k f now).0
unfolding on_message
on_message-seen idle f now h v = (omega arith, omega arith)
on_message-seen (collecting n t marks) f now h v = elim (Bool-cases (n + 1 == 100)) [
  | inl e ↦ rw e (ground arith, tt)
  | inr e ↦ rw e (omega arith, ground arith)
]
on_message-seen (done elapsed marks) f now h v = absurd (omega arith)

pub on_message-Tells :
    (k : Sink) (f : Frame) (now : ℕ) (cs : List Frame)
    → seen k < 101
    → Tells k cs
    → Tells (on_message k f now).0 (cs ++ (on_message k f now).1)
unfolding on_message
on_message-Tells idle f now cs h t = rw t refl
on_message-Tells (collecting n start_time marks) f now cs h t = elim (Bool-cases (n + 1 == 100)) [
  | inl e ↦ rw (e, t) refl
  | inr e ↦ rw (e, t) refl
]
on_message-Tells (done elapsed marks) f now cs h t = absurd (omega arith)

-- All messages seen, the sink is done.
pub seen-IsDone : (k : Sink) → seen k ≡ 101 → InRange k → IsDone k
seen-IsDone idle h v = omega (arith, h)
seen-IsDone (collecting n start_time marks) h v = omega (arith, h, v)
seen-IsDone (done elapsed marks) h v = tt

pub Tells-done :
    (k : Sink) (fs : List Frame) → seen k ≡ 101 → InRange k → Tells k fs → fs ≡ kill ∷ []
Tells-done idle fs h v t = absurd (omega (arith, h))
Tells-done (collecting n start_time marks) fs h v t = absurd (omega (arith, h, v))
Tells-done (done elapsed marks) fs h v t = t
