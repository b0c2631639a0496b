-- ===== src/Router.antt =====
-- src/router/id_check.c: what a ROUTER socket receives of two REQ sockets, one with a name that it is
-- given and one without, as `s_dump` prints it. A REQ socket puts an empty frame in front of what it
-- sends, and the ROUTER socket the name; the name that it makes up is an argument.
mod Tests
use zmq_test.Common.{ℕ, Option, none, Bool, true, false, List, [], ◌∷◌, take}
use zmq_test.Czmq.{Frame}
use zmq_test.Base.Transport.{s_send}
use zmq_test.Base.Dump.{s_dump}

-- The texts, with the byte 0 behind them.
abbrev pub uuid_text : List ℕ
uuid_text =
    b'R' ∷ b'O' ∷ b'U' ∷ b'T' ∷ b'E' ∷ b'R' ∷ b' ' ∷ b'u' ∷ b's' ∷ b'e' ∷ b's' ∷ b' ' ∷ b'a' ∷ b' '
    ∷ b'g' ∷ b'e' ∷ b'n' ∷ b'e' ∷ b'r' ∷ b'a' ∷ b't' ∷ b'e' ∷ b'd' ∷ b' ' ∷ b'U' ∷ b'U' ∷ b'I'
    ∷ b'D' ∷ 0 ∷ []

abbrev pub identity_text : List ℕ
identity_text =
    b'R' ∷ b'O' ∷ b'U' ∷ b'T' ∷ b'E' ∷ b'R' ∷ b' ' ∷ b's' ∷ b'o' ∷ b'c' ∷ b'k' ∷ b'e' ∷ b'r' ∷ b' '
    ∷ b'u' ∷ b's' ∷ b'e' ∷ b's' ∷ b' ' ∷ b'R' ∷ b'E' ∷ b'Q' ∷ 39 ∷ b's' ∷ b' ' ∷ b's' ∷ b'o' ∷ b'c'
    ∷ b'k' ∷ b'e' ∷ b'r' ∷ b' ' ∷ b'i' ∷ b'd' ∷ b'e' ∷ b'n' ∷ b't' ∷ b'i' ∷ b't' ∷ b'y' ∷ 0 ∷ []

-- The five bytes that `zmq_setsockopt` is given.
abbrev pub peer2 : Frame
peer2 = b'P' ∷ b'E' ∷ b'E' ∷ b'R' ∷ b'2' ∷ []

unfoldable pub received : Frame → List ℕ → List (Frame × Bool)
received name text = (name, true) ∷ ([], true) ∷ ((s_send text 0 false none).0.bytes, false) ∷ []

-- What the two calls of `s_dump` print.
unfoldable pub main : Frame → Option (List (ℕ × List ℕ)) × Option (List (ℕ × List ℕ))
unfolding received
main generated = (s_dump (received generated uuid_text), s_dump (received peer2 identity_text))
