-- ===== src/Base/Strings.antt =====
-- C strings as the programs move them with src/base.c: `s_recv` keeps what fits its array and ends
-- it with the byte 0, and `s_send` with length 0 sends a string up to that byte.
use zmq_test.Common.{
  ℕ, zero, suc, ◌-◌, ◌≤◌, ◌<◌, ◌≡◌, ◌≢◌, refl, ap, ◌∙◌, List, [], ◌∷◌, take, length, ◌==◌,
  if◌then◌else◌, All, arith,
}

-- The bytes of a string in front of its first byte 0.
abbrev pub c_string : List ℕ → List ℕ
c_string [] = []
c_string (c ∷ s) = if c == 0 then [] else c ∷ c_string s

-- The string that `s_recv(socket, str, len)` leaves in `str` when it receives a frame.
abbrev pub received : ℕ → List ℕ → List ℕ
received len frame = c_string (take (len - 1) frame)

abbrev pub IsText : List ℕ → Type 0
IsText = All λ c. c ≢ 0

pub c_string-text : (s : List ℕ) → IsText s → c_string s ≡ s
c_string-text [] h = refl
c_string-text (c ∷ s) h = ground (arith, h.0, c_string-text s h.1)

pub take-all {ℓ} : {A : Type ℓ} (n : ℕ) (s : List A) → length s ≤ n → take n s ≡ s
take-all zero [] h = refl
take-all zero (x ∷ s) h = absurd (omega arith)
take-all (suc n) [] h = refl
take-all (suc n) (x ∷ s) h = ap (◌∷◌ x) (take-all n s (omega arith))

-- A text that fits comes through whole.
pub received-text : (len : ℕ) (s : List ℕ) → length s < len → IsText s → received len s ≡ s
received-text len s h t = ap c_string (take-all (len - 1) s (omega arith)) ∙ c_string-text s t
