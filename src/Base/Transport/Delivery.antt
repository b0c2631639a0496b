-- ===== src/Base/Transport/Delivery.antt =====
-- What comes out of `s_recv`, and what `s_sendlists` puts on the wire.
use zmq_test.Common.{
  ℕ, zero, suc, ◌-◌, ◌^◌, ◌≤◌, ◌<◌, ◌≡◌, refl, ap, ◌∙◌, inl, inr, some, true, false, List, [], ◌∷◌,
  ◌++◌, take, drop, length, length-take, length-set, set, All, ltb, ◌==◌, if◌then◌else◌, arith,
  Bool-cases, map, append_assoc,
}
use zmq_test.Czmq.{Msg}
use zmq_test.Base.Strings.{c_string, c_string-text, received, received-text, IsText}
use zmq_test.Base.Transport.{overlay, room, s_recv, Call, payload, s_sendlists}

overlay-set :
    (xs str : List ℕ)
    → length xs < length str
    → set (overlay xs str) (length xs) 0 ≡ xs ++ 0 ∷ drop (suc (length xs)) str
overlay-set [] [] h = absurd (omega arith)
overlay-set [] (d ∷ str) h = refl
overlay-set (c ∷ xs) [] h = absurd (omega arith)
overlay-set (c ∷ xs) (d ∷ str) h = ap (◌∷◌ c) (overlay-set xs str (omega arith))

c_string-ended : (xs r : List ℕ) → c_string (xs ++ 0 ∷ r) ≡ c_string xs
c_string-ended [] r = refl
c_string-ended (c ∷ xs) r = ap (λ s. if c == 0 then [] else c ∷ s) (c_string-ended xs r)

drop-nil : (n : ℕ) → drop {A = ℕ} n [] ≡ []
drop-nil zero = refl
drop-nil (suc n) = refl

drop-past :
    (xs str : List ℕ) (n : ℕ)
    → length xs < n
    → drop n (xs ++ 0 ∷ drop (suc (length xs)) str) ≡ drop n str
drop-past xs str zero h = absurd (omega arith)
drop-past [] [] (suc zero) h = refl
drop-past [] [] (suc (suc n)) h = refl
drop-past [] (d ∷ str) (suc n) h = refl
drop-past (c ∷ xs) [] (suc n) h = drop-past xs [] n (omega arith) ∙ drop-nil n
drop-past (c ∷ xs) (d ∷ str) (suc n) h = drop-past xs str n (omega arith)

s_recv-eq :
    (str frame : List ℕ) (len : ℕ)
    → 1 ≤ len
    → len < 2 ^ 32
    → len ≤ length str
    → s_recv str len (some frame)
      ≡ take (len - 1) frame ++ 0 ∷ drop (suc (length (take (len - 1) frame))) str
unfolding s_recv
s_recv-eq str frame len h small fits =
    let n : room len ≡ len - 1 = omega arith in
    let end : (if ltb (len - 1) (length frame) then len - 1 else length frame)
        ≡ length (take (len - 1) frame) =
      elim (Bool-cases (ltb (len - 1) (length frame))) [
        | inl a ↦ rw a (ground (arith, length-take (len - 1) frame))
        | inr a ↦ rw a (ground (arith, length-take (len - 1) frame))
      ] in
    rw (n, end)
      (overlay-set (take (len - 1) frame) str (omega (arith, length-take (len - 1) frame)))

length-overlay : (xs str : List ℕ) → length (overlay xs str) ≡ length str
length-overlay [] str = refl
length-overlay (c ∷ xs) [] = refl
length-overlay (c ∷ xs) (d ∷ str) = ap suc (length-overlay xs str)

-- The array stays as long as it is.
pub length-s_recv :
    (str : List ℕ) (len : ℕ) (frame : List ℕ) → length (s_recv str len (some frame)) ≡ length str
unfolding s_recv
length-s_recv str len frame =
    length-set (overlay (take (room len) frame) str)
      (if ltb (room len) (length frame) then room len else length frame) 0
    ∙ length-overlay (take (room len) frame) str

-- If the array has at least the length that is named, from 1 to below 2^32, `s_recv` leaves in
-- it the string of the part of the frame that fits, and writes to nothing that stands behind
-- that length.
pub s_recv_lem :
    (str frame : List ℕ) (len : ℕ)
    → 1 ≤ len
    → len < 2 ^ 32
    → len ≤ length str
    → (c_string (s_recv str len (some frame)) ≡ received len frame)
      × (drop len (s_recv str len (some frame)) ≡ drop len str)
s_recv_lem str frame len h small fits =
    let e = s_recv-eq str frame len h small fits in
    (
      rw e (c_string-ended (take (len - 1) frame) _),
      rw e (drop-past (take (len - 1) frame) str len (omega (arith, length-take (len - 1) frame))),
    )

-- ZeroMQ joins the frames of calls with ZMQ_SNDMORE to the next one; what is not closed is not sent.
abbrev pub joined : Msg → List Call → List Msg
joined parts [] = []
joined parts (call ∷ calls) =
    if call.more
    then joined (parts ++ call.bytes ∷ []) calls
    else (parts ++ call.bytes ∷ []) ∷ joined [] calls

-- A string in memory, with the byte 0 behind it.
abbrev pub ended : List ℕ → List ℕ × ℕ
ended s = (s ++ 0 ∷ [], 0)

payload-ended : (s : List ℕ) → IsText s → payload (ended s).0 (ended s).1 ≡ s
payload-ended s h = c_string-ended s [] ∙ c_string-text s h

s_sendlists-joined :
    (s : List ℕ) (texts : List (List ℕ)) (parts : Msg)
    → All IsText (s ∷ texts)
    → (calls : List Call) × (s_sendlists (map ended (s ∷ texts)) ≡ some calls)
      × (joined parts calls ≡ (parts ++ s ∷ texts) ∷ [])
unfolding s_sendlists
s_sendlists-joined s [] parts h = (
  record { bytes = payload (s ++ 0 ∷ []) 0; more = false } ∷ [],
  refl,
  ap (λ t. (parts ++ t ∷ []) ∷ []) (payload-ended s h.0),
)
s_sendlists-joined s (t ∷ texts) parts h =
    let (calls, e, j) = s_sendlists-joined t texts (parts ++ s ∷ []) h.1 in
    (
      record { bytes = payload (s ++ 0 ∷ []) 0; more = true } ∷ calls,
      rw e refl,
      ap (λ u. joined (parts ++ u ∷ []) calls) (payload-ended s h.0)
          ∙ j
          ∙ ap (λ m. m ∷ []) (append_assoc parts (s ∷ []) (t ∷ texts)),
    )

-- Texts without a byte 0, at least one of them, that are sent with `s_sendlists`, each with
-- length 0, go out as one message, a frame for each. From the frame of any such text `s_recv`
-- gets it back, if its array is longer than the text and shorter than 2^32.
pub s_sendlists_round_trip :
    (s : List ℕ) (texts : List (List ℕ))
    → All IsText (s ∷ texts)
    → (calls : List Call) × (s_sendlists (map ended (s ∷ texts)) ≡ some calls)
      × (joined [] calls ≡ (s ∷ texts) ∷ [])
      × ((t str : List ℕ)
          → IsText t
          → length t < length str
          → length str < 2 ^ 32
          → c_string (s_recv str (length str) (some t)) ≡ t)
s_sendlists_round_trip s texts h =
    let (calls, e, j) = s_sendlists-joined s texts [] h in
    (
      calls,
      e,
      j,
      λ t str k fits small.
          (s_recv_lem str t (length str) (omega arith) small (omega arith)).0
          ∙ received-text (length str) t fits k,
    )
