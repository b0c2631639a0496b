-- ===== src/Erl/Server2/Interrupted.antt =====
-- A signal that interrupts the receive of src/erl/server2.c makes it handle the last message again.
use zmq_test.Common.{
  ℕ, ◌≡◌, ◌≢◌, refl, ap, ◌∙◌, inl, inr, Option, none, some, true, false, List, [], ◌∷◌, ◌++◌, All,
  append_assoc, append-nil, or_true, Bool-cases, ◌==◌, if◌then◌else◌,
}
use zmq_test.Czmq.{Frame}
use zmq_test.Base.Transport.{s_recv}
use zmq_test.Base.Signals.{signals, signals-handled}
use zmq_test.Erl.Server2.{
  Fork, child, parent, fork_failed, Round, Effect, fork_gave, waited, receive_integer,
  receive_float, killing, slept, Server, running, stopped, typed, forked, receive, handle, pause,
  turn, run,
}

typed_again :
    (type : ℕ) (found : Option (ℕ × ℕ)) → typed (typed type found) found ≡ typed type found
typed_again type none = refl
typed_again type (some (type', size)) = refl

thrice :
    (t : List Effect) (x y z : Effect) → ((t ++ x ∷ []) ++ y ∷ []) ++ z ∷ [] ≡ t ++ x ∷ y ∷ z ∷ []
thrice t x y z =
    ap (λ l. l ++ z ∷ []) (append_assoc t (x ∷ []) (y ∷ [])) ∙ append_assoc t (x ∷ y ∷ []) (z ∷ [])

module _ (ei_get_type : List ℕ → ℕ → Option (ℕ × ℕ)) (small_integer_ext float_ext : ℕ) where
  -- What the parent does for a message of this type, with what a `fork` would give.
  abbrev pub effects_of : Fork → ℕ → List Effect
  effects_of fork type =
      if type == small_integer_ext
      then fork_gave fork ∷ waited ∷ receive_integer ∷ []
      else if type == float_ext
      then receive_float ∷ []
      else []

  forked-parent :
      (fork : Fork) (s : Server)
      → fork ≢ child
      → forked s fork
        ≡ running (record s { trace = s.trace ++ fork_gave fork ∷ waited ∷ receive_integer ∷ [] })
  forked-parent child s h = absurd (h refl)
  forked-parent parent s h = ap (λ t. running (record s { trace = t })) (thrice s.trace _ _ _)
  forked-parent fork_failed s h = ap (λ t. running (record s { trace = t })) (thrice s.trace _ _ _)

  handle-effects :
      (fork : Fork) (s : Server)
      → fork ≢ child
      → handle ei_get_type small_integer_ext float_ext fork s
        ≡ running (record s { trace = s.trace ++ effects_of fork s.type })
  unfolding handle
  handle-effects fork s h = elim (Bool-cases (s.type == small_integer_ext)) [
    | inl small ↦ rw small (forked-parent fork s h)
    | inr other ↦ elim (Bool-cases (s.type == float_ext)) [
      | inl float ↦ rw (other, float) refl
      | inr neither ↦ rw (other, neither, append-nil s.trace) refl
    ]
  ]

  -- A message, and the type that the server finds in it.
  abbrev pub read : Server → Frame → Server
  read s frame = receive ei_get_type small_integer_ext float_ext s (some frame)

  -- A round with a message and no signal, in which the program is not the child.
  abbrev pub quiet : Frame → Fork → Round
  quiet frame fork = record { in_recv = []; frame = some frame; fork = fork; in_sleep = [] }

  -- A round with signals in place of a message.
  abbrev pub interrupted : ℕ → List ℕ → Fork → List ℕ → Round
  interrupted n ns fork in_sleep = record {
    in_recv = n ∷ ns;
    frame = none;
    fork = fork;
    in_sleep = in_sleep;
  }

  -- The state after a message.
  abbrev served : Server → Frame → Fork → Server
  served s frame fork = record (read s frame) {
    trace = (s.trace ++ effects_of fork (read s frame).type) ++ slept 1 ∷ [];
  }

  quiet-turn :
      (s : Server) (frame : Frame) (fork : Fork)
      → s.process.interrupted ≡ false
      → fork ≢ child
      → turn ei_get_type small_integer_ext float_ext s (quiet frame fork)
        ≡ running (served s frame fork)
  unfolding turn receive pause signals
  quiet-turn s frame fork i c = rw (handle-effects fork (read s frame) c, i) refl

  -- Where the type is the one that the buffer has.
  interrupted-turn :
      (s : Server) (n : ℕ) (ns : List ℕ) (fork : Fork) (in_sleep : List ℕ)
      → typed s.type (ei_get_type s.buffer 1) ≡ s.type
      → All (λ n. s.process.handled n ≡ true) (n ∷ ns)
      → fork ≢ child
      → turn ei_get_type small_integer_ext float_ext s (interrupted n ns fork in_sleep)
        ≡ stopped (record s {
          process = record s.process { interrupted = true };
          trace = (s.trace ++ effects_of fork s.type) ++ killing ∷ [];
        })
  unfolding turn receive pause s_recv
  interrupted-turn s n ns fork in_sleep e h c =
      let now : signals (n ∷ ns) s.process ≡ some (record s.process { interrupted = true }) =
        signals-handled (n ∷ ns) s.process h
        ∙ ap (λ b. some (record s.process { interrupted = b })) (or_true s.process.interrupted) in
      rw
        (
          now,
          e,
          handle-effects fork (record s { process = record s.process { interrupted = true } }) c,
        )
        refl

  -- A server of src/erl/server2.c that no signal has reached handles a message. Then signals that
  -- are handled interrupt its receive. It does for the message once more what it has done before,
  -- where it is not the child of a fork: for a small integer it calls `fork` again, waits and prints
  -- its line again, for a float it prints its line again, and for another type nothing. Only then it
  -- stops, whatever would come next.
  pub run-repeats :
      (s : Server) (frame : Frame) (fork fork' : Fork) (n : ℕ) (ns in_sleep : List ℕ)
      (rs : List Round)
      → s.process.interrupted ≡ false
      → All (λ n. s.process.handled n ≡ true) (n ∷ ns)
      → fork ≢ child
      → fork' ≢ child
      → let type = (read s frame).type in
        run ei_get_type small_integer_ext float_ext s
          (quiet frame fork ∷ interrupted n ns fork' in_sleep ∷ rs)
        ≡ stopped (record {
          process = record s.process { interrupted = true };
          buffer = (read s frame).buffer;
          type = type;
          trace =
              (((s.trace ++ effects_of fork type) ++ slept 1 ∷ []) ++ effects_of fork' type)
              ++ killing ∷ [];
        })
  unfolding run receive
  run-repeats s frame fork fork' n ns in_sleep rs i h c c' =
      rw
        (
          quiet-turn s frame fork i c,
          interrupted-turn (served s frame fork) n ns fork' in_sleep
              (typed_again s.type (ei_get_type (read s frame).buffer 1)) h c',
        )
        refl
