-- ===== src/Rrb/Client/Rounds.antt =====
-- A client of src/rrb over its rounds.
use zmq_test.Common.{
  ℕ, zero, suc, ◌+◌, ◌≤◌, ◌<◌, ◌≡◌, refl, sym, ap, inl, inr, Option, none, some, Bool, true, false,
  List, [], ◌∷◌, ◌++◌, length, replicate, ltb, ltb→lt, Bool-cases, arith,
}
use zmq_test.Czmq.{Frame}
use zmq_test.Base.Transport.{Call, s_send}
use zmq_test.Base.Transport.Delivery.{s_recv_lem, length-s_recv}
use zmq_test.Rrb.Client.{Client, hello, ask, hear}

-- The text of a reply.
abbrev pub world : List ℕ
world = b'W' ∷ b'o' ∷ b'r' ∷ b'l' ∷ b'd' ∷ b'!' ∷ []

abbrev pub count : Bool → ℕ
count true = 1
count false = 0

-- It has printed the reply to each request that is over, and its array has the 256 bytes.
abbrev pub IsClient : Client → Type 0
IsClient c =
    (c.request_nbr + count c.waiting ≤ 10)
    × (c.printed ≡ replicate c.request_nbr world)
    × (256 ≤ length c.string)

asker : Client → Option (Client × Call) → Client
asker c none = c
asker c (some (d, call)) = d

pub ask-asks :
    (c d : Client) (call : Call)
    → ask c ≡ some (d, call)
    → (c.request_nbr < 10) × (d ≡ record c { waiting = true })
unfolding ask asker
ask-asks c d call e = elim (Bool-cases (ltb c.request_nbr 10)) [
  | inl more ↦ (ltb→lt _ _ more, sym (rw more at (ap (asker c) e)))
  | inr over ↦ let never = rw over at e in cc
]

pub ask-more :
    (c : Client)
    → c.request_nbr < 10
    → (call : Call) × (ask c ≡ some (record c { waiting = true }, call))
unfolding ask
ask-more c h =
    let more : ltb c.request_nbr 10 ≡ true = ground arith in
    ((s_send hello 0 false none).0, rw more refl)

replicate-snoc : (n : ℕ) (x : List ℕ) → replicate n x ++ x ∷ [] ≡ replicate (suc n) x
replicate-snoc zero x = refl
replicate-snoc (suc n) x = ap (◌∷◌ x) (replicate-snoc n x)

pub hear-IsClient : (c : Client) → c.waiting ≡ true → IsClient c → IsClient (hear c (some world))
unfolding hear
hear-IsClient c w (n, p, l) =
    let read = (s_recv_lem c.string world 256 (omega arith) (omega arith) l).0 in
    let add_one : c.request_nbr + 1 ≡ suc c.request_nbr = omega arith in
    (
      omega (arith, n, ap count w),
      rw (p, read, add_one) (replicate-snoc c.request_nbr world),
      omega (arith, l, length-s_recv c.string 256 world),
    )

pub hear-idle :
    (c : Client) (frame : Option Frame)
    → ((hear c frame).name ≡ c.name)
      × ((hear c frame).waiting ≡ false)
      × ((hear c frame).request_nbr ≡ c.request_nbr + 1)
unfolding hear
hear-idle c frame = (refl, refl, refl)
