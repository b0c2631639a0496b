-- ===== src/Envelope/Filtering.antt =====
-- The subscriber of src/envelope prints what is for it.
use zmq_test.Common.{
  ℕ, zero, suc, ◌≤◌, ◌<◌, ◌≡◌, refl, ap, ◌∙◌, Option, some, List, [], ◌∷◌, ◌++◌, length, arith,
}
use zmq_test.Czmq.{Frame, Msg}
use zmq_test.Base.Strings.{c_string, IsText, received-text}
use zmq_test.Base.Transport.{Call, s_send, s_sendmore, s_recv}
use zmq_test.Base.Transport.Delivery.{joined, s_recv_lem, length-s_recv}
use zmq_test.Envelope.{
  key_a, key_b, address, msg, publish, publisher, Arrays, Line, subscribe, subscriber, filter_key,
  Filters, delivered,
}

-- Arrays of 256 bytes, and maybe more.
abbrev pub IsWide : Arrays → Type 0
IsWide a = (256 ≤ length a.key) × (256 ≤ length a.address) × (256 ≤ length a.content)

abbrev pub line : ℕ → Line
line digit = record {
  key = c_string key_b;
  address = c_string (address digit);
  content = c_string (msg digit);
}

-- The lines of a round.
abbrev pub lines : ℕ → List Line
lines zero = []
lines (suc n) = line b'2' ∷ line b'3' ∷ lines n

subscribe-IsWide :
    (a : Arrays) (f g h : Frame) → IsWide a → IsWide (subscribe a (some f) (some g) (some h)).0
unfolding subscribe
subscribe-IsWide a f g h (k, l, m) = (
  omega (arith, k, length-s_recv a.key 256 f),
  omega (arith, l, length-s_recv a.address 256 g),
  omega (arith, m, length-s_recv a.content 256 h),
)

-- Short texts come through whole.
abbrev IsShort : Frame → Type 0
IsShort f = (length f < 256) × IsText f

read :
    (string f : List ℕ)
    → 256 ≤ length string
    → IsShort f
    → c_string (s_recv string 256 (some f)) ≡ f
read string f l (short, text) =
    (s_recv_lem string f 256 (omega arith) (omega arith) l).0 ∙ received-text 256 f short text

subscribe-line :
    (a : Arrays) (f g h : Frame)
    → IsWide a
    → IsShort f
    → IsShort g
    → IsShort h
    → (subscribe a (some f) (some g) (some h)).1 ≡ record { key = f; address = g; content = h }
unfolding subscribe
subscribe-line a f g h (k, l, m) sf sg sh =
    rw (read a.key f k sf, read a.address g l sg, read a.content h m sh) refl

-- The frames of a message of the publisher with key B.
abbrev framed : ℕ → List (Option Frame) → List (Option Frame)
framed digit frames =
    some filter_key ∷ some (c_string (address digit)) ∷ some (c_string (msg digit)) ∷ frames

subscriber-message :
    (a : Arrays) (digit : ℕ) (frames : List (Option Frame))
    → IsWide a
    → IsShort (c_string (address digit))
    → IsShort (c_string (msg digit))
    → (a' : Arrays) × IsWide a'
      × (subscriber a (framed digit frames) ≡ line digit ∷ subscriber a' frames)
unfolding subscriber
subscriber-message a digit frames w sa sm =
    let f = c_string (address digit) in
    let g = c_string (msg digit) in
    (
      (subscribe a (some filter_key) (some f) (some g)).0,
      subscribe-IsWide a filter_key f g w,
      ap (λ l. l ∷ subscriber (subscribe a (some filter_key) (some f) (some g)).0 frames)
          (subscribe-line a filter_key f g w (omega arith) sa sm),
    )

subscriber-round :
    (a : Arrays)
    → IsWide a
    → (frames : List (Option Frame))
    → (a' : Arrays) × IsWide a'
      × (subscriber a (framed b'2' (framed b'3' frames))
          ≡ line b'2' ∷ line b'3' ∷ subscriber a' frames)
subscriber-round a w frames =
    let (a₂, w₂, e₂) =
      subscriber-message a b'2' (framed b'3' frames) w (omega arith) (omega arith) in
    let (a₃, w₃, e₃) = subscriber-message a₂ b'3' frames w₂ (omega arith) (omega arith) in
    (a₃, w₃, e₂ ∙ ap (◌∷◌ (line b'2')) e₃)

-- What a round sends, message by message.
abbrev message : List ℕ → ℕ → Msg
message key digit = c_string key ∷ c_string (address digit) ∷ c_string (msg digit) ∷ []

joined-publish :
    (calls : List Call)
    → joined [] (publish ++ calls)
      ≡ message key_a b'1' ∷ message key_b b'2' ∷ message key_b b'3' ∷ joined [] calls
unfolding publish s_send s_sendmore
joined-publish calls = refl

module _ (F : Filters) where
  abbrev wanted : ℕ → Frame × Frame
  wanted digit = (c_string (address digit), c_string (msg digit))

  delivered-publish :
      (calls : List Call)
      → delivered F (joined [] (publish ++ calls))
        ≡ some filter_key
          ∷ some (c_string (address b'2'))
          ∷ some (c_string (msg b'2'))
          ∷ some filter_key
          ∷ some (c_string (address b'3'))
          ∷ some (c_string (msg b'3'))
          ∷ delivered F (joined [] calls)
  unfolding delivered
  delivered-publish calls =
      rw
        (
          joined-publish calls,
          F.matches-other b'B' b'A' [] [] (c_string (address b'1') ∷ c_string (msg b'1') ∷ [])
              (λ e. ground arith),
          F.matches-prefix filter_key [] (c_string (address b'2') ∷ c_string (msg b'2') ∷ []),
          F.matches-prefix filter_key [] (c_string (address b'3') ∷ c_string (msg b'3') ∷ []),
        )
        refl

  -- With arrays of 256 bytes at least, whatever they hold, the subscriber of src/envelope prints, for n
  -- rounds of the publisher, the two messages of each round whose key is B, in their order, each
  -- with its key, its address and its content whole.
  pub subscriber-publisher :
      (n : ℕ) (a : Arrays)
      → IsWide a
      → subscriber a (delivered F (joined [] (publisher n))) ≡ lines n
  unfolding publisher delivered subscriber
  subscriber-publisher zero a w = refl
  subscriber-publisher (suc n) a w =
      let (a', w', e) = subscriber-round a w (delivered F (joined [] (publisher n))) in
      ap (subscriber a) (delivered-publish (publisher n))
      ∙ e
      ∙ ap (λ ls. line b'2' ∷ line b'3' ∷ ls) (subscriber-publisher n a' w')
