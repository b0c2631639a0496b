-- ===== src/Base/Dump/Reading.antt =====
-- What a dump says of the frames.
use zmq_test.Common.{
  ℕ, ◌+◌, ◌-◌, ◌*◌, ◌≤◌, ◌<◌, ◌≡◌, ◌⊎◌, Bool, true, false, List, [], ◌∷◌, length, All, ltb,
  if◌then◌else◌,
}
use zmq_test.Czmq.{Frame, Msg}

abbrev digit_value : ℕ → ℕ
digit_value c = if ltb c 65 then c - 48 else c - 55

-- The bytes that pairs of hexadecimal digits stand for.
abbrev pub read_hex : List ℕ → List ℕ
read_hex (a ∷ b ∷ r) = (digit_value a * 16 + digit_value b) ∷ read_hex r
read_hex _ = []

abbrev pub IsByte : ℕ → Type 0
IsByte c = c < 256

abbrev pub IsPrintable : ℕ → Type 0
IsPrintable c = (32 ≤ c) × (c ≤ 127)

-- A frame is printed as it is if all its bytes are printable, and else in digits that give its
-- bytes.
abbrev pub Shows : Frame → List ℕ → Type 0
Shows f line = (All IsPrintable f × (line ≡ f)) ⊎ (¬ All IsPrintable f × (read_hex line ≡ f))

-- The frames of a message as they are received.
abbrev pub parts : Frame → Msg → List (Frame × Bool)
parts f [] = (f, false) ∷ []
parts f (g ∷ m) = (f, true) ∷ parts g m

-- One line for each frame.
abbrev pub ShowsAll : Msg → List (ℕ × List ℕ) → Type 0
ShowsAll [] [] = Unit
ShowsAll [] (l ∷ ls) = ⊥
ShowsAll (f ∷ m) [] = ⊥
ShowsAll (f ∷ m) (l ∷ ls) = (l.0 ≡ length f) × Shows f l.1 × ShowsAll m ls
