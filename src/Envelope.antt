-- ===== src/Envelope.antt =====
-- src/envelope: a publisher of messages with an envelope, and a subscriber to some of them. Which
-- messages a PUB socket gives to a SUB socket is a parameter.
pub mod Filtering
mod Tests
use zmq_test.Common.{
  ℕ, zero, suc, ◌≡◌, ◌≢◌, Option, none, some, Bool, true, false, List, [], ◌∷◌, ◌++◌, if◌then◌else◌,
}
use zmq_test.Czmq.{Frame, Msg}
use zmq_test.Base.Strings.{c_string}
use zmq_test.Base.Transport.{Call, s_send, s_sendmore, s_recv}

-- The texts of publisher.c, with the byte 0 behind them.
abbrev pub key_a : List ℕ
key_a = b'A' ∷ 0 ∷ []

abbrev pub key_b : List ℕ
key_b = b'B' ∷ 0 ∷ []

abbrev pub address : ℕ → List ℕ
address digit = b'a' ∷ b'd' ∷ b'd' ∷ b'r' ∷ b'e' ∷ b's' ∷ b's' ∷ digit ∷ 0 ∷ []

abbrev pub msg : ℕ → List ℕ
msg digit = b'm' ∷ b's' ∷ b'g' ∷ digit ∷ 0 ∷ []

abbrev sendmore : List ℕ → Call
sendmore str = (s_sendmore str 0 false none).0

abbrev send : List ℕ → Call
send str = (s_send str 0 false none).0

-- The body of the loop of publisher.c.
pub publish : List Call
publish =
    sendmore key_a
    ∷ sendmore (address b'1')
    ∷ send (msg b'1')
    ∷ sendmore key_b
    ∷ sendmore (address b'2')
    ∷ send (msg b'2')
    ∷ sendmore key_b
    ∷ sendmore (address b'3')
    ∷ send (msg b'3')
    ∷ []

-- The calls of its first n rounds.
pub publisher : ℕ → List Call
unfolding publish
publisher zero = []
publisher (suc n) = publish ++ publisher n

-- The arrays of subscriber.c.
pub record Arrays : Type 0 where
  pub key : List ℕ
  pub address : List ℕ
  pub content : List ℕ

pub record Line : Type 0 where
  pub key : List ℕ
  pub address : List ℕ
  pub content : List ℕ

-- The body of its loop: three frames, and what is printed.
pub subscribe : Arrays → Option Frame → Option Frame → Option Frame → Arrays × Line
subscribe a f g h =
    let key = s_recv a.key 256 f in
    let address = s_recv a.address 256 g in
    let content = s_recv a.content 256 h in
    (
      record { key = key; address = address; content = content },
      record { key = c_string key; address = c_string address; content = c_string content },
    )

-- The loop on these frames, until it waits for one.
pub subscriber : Arrays → List (Option Frame) → List Line
unfolding subscribe
subscriber a (f ∷ g ∷ h ∷ frames) =
    let (a', line) = subscribe a f g h in line ∷ subscriber a' frames
subscriber a _ = []

abbrev pub filter_key : Frame
filter_key = b'B' ∷ []

-- A filter matches the messages whose first frame starts with it.
pub record Filters : Type 0 where
  pub matches : Frame → Msg → Bool
  pub matches-prefix : (f r : Frame) (m : Msg) → matches f ((f ++ r) ∷ m) ≡ true
  pub matches-other :
      (c d : ℕ) (f r : Frame) (m : Msg) → c ≢ d → matches (c ∷ f) ((d ∷ r) ∷ m) ≡ false

-- The frames of messages that match.
pub delivered : Filters → List Msg → List (Option Frame)
delivered F [] = []
delivered F (m ∷ ms) =
    let rest = delivered F ms in if F.matches filter_key m then frames m rest else rest
  where
    frames : Msg → List (Option Frame) → List (Option Frame)
    frames [] rest = rest
    frames (f ∷ m) rest = some f ∷ frames m rest
