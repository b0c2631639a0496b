-- ===== src/Erl/Server1.antt =====
-- src/erl/server1.c: the loop of `main`. `buffer` is the array of 64 kilobytes.
use zmq_test.Common.{ℕ, ◌*◌, ◌≡◌, refl, ap, Option, none, false, List, [], ◌∷◌, ◌++◌}
use zmq_test.Czmq.{Frame}
use zmq_test.Base.Transport.{Call, s_send, s_recv}

abbrev pub ok : List ℕ
ok = b'o' ∷ b'k' ∷ 0 ∷ []

abbrev pub buffer_size : ℕ
buffer_size = 64 * 1024

-- The term that erl_decode makes of the buffer, NULL included.
module _ (Term : Type 0) (erl_decode : List ℕ → Option Term) where
  pub data Effect : Type 0 where
    decoded : Option Term → Effect
    freed : Option Term → Effect
    released : Effect
    sent : Call → Effect

  -- The body of the loop.
  pub turn : List ℕ → Option Frame → List ℕ × List Effect
  turn buffer frame =
      let buffer' = s_recv buffer buffer_size frame in
      let et = erl_decode buffer' in
      (buffer', decoded et ∷ freed et ∷ released ∷ sent (s_send ok 0 false none).0 ∷ [])

  pub run : List ℕ → List (Option Frame) → List Effect
  unfolding turn
  run buffer [] = []
  run buffer (f ∷ fs) = let (buffer', effects) = turn buffer f in effects ++ run buffer' fs

  abbrev pub calls : List Effect → List Call
  calls [] = []
  calls (sent c ∷ es) = c ∷ calls es
  calls (_ ∷ es) = calls es

  abbrev pub oks : List (Option Frame) → List Call
  oks [] = []
  oks (f ∷ fs) = record { bytes = b'o' ∷ b'k' ∷ []; more = false } ∷ oks fs

  -- The server says ok to each message, whatever it holds.
  pub calls-run : (buffer : List ℕ) (fs : List (Option Frame)) → calls (run buffer fs) ≡ oks fs
  unfolding run turn s_send
  calls-run buffer [] = refl
  calls-run buffer (f ∷ fs) =
      ap (◌∷◌ (record { bytes = b'o' ∷ b'k' ∷ []; more = false }))
        (calls-run (s_recv buffer buffer_size f) fs)
