-- ===== src/Base/Dump.antt =====
-- `s_dump` of src/base.c, for frames of bytes: what it prints of each, a text as it is and all
-- else in hexadecimal digits. The lines before and behind it are left out.
pub mod Reading
use zmq_test.Common.{
  ℕ, zero, suc, ◌+◌, ◌-◌, Bool, true, false, ◌||◌, Option, none, some, List, [], ◌∷◌, ◌++◌, length,
  replicate, ltb, if◌then◌else◌,
}
use zmq_test.Czmq.{Frame}
use zmq_test.Base.Identity.{hex}

-- The first loop over the bytes.
unfoldable pub is_text : Frame → Bool
is_text [] = true
is_text (c ∷ bytes) = if ltb c 32 || ltb 127 c then false else is_text bytes

-- `%02X`
unfoldable pub hex2 : ℕ → List ℕ
hex2 c = replicate (2 - length (hex 8 c)) b'0' ++ hex 8 c

-- The second loop.
unfoldable pub shown : Bool → Frame → List ℕ
unfolding hex2
shown text [] = []
shown text (c ∷ bytes) = (if text then c ∷ [] else hex2 c) ++ shown text bytes

-- The sizes and the texts that `s_dump` prints, for the frames as they are received, each with its
-- ZMQ_RCVMORE; `none` if they end before a last one, for which the loop waits.
unfoldable pub s_dump : List (Frame × Bool) → Option (List (ℕ × List ℕ))
unfolding is_text shown
s_dump [] = none
s_dump ((bytes, more) ∷ rest) =
    let others = s_dump rest in
    let line : ℕ × List ℕ = (length bytes, shown (is_text bytes) bytes) in
    if more
    then elim others [ none ↦ none | some lines ↦ some (line ∷ lines) ]
    else some (line ∷ [])
