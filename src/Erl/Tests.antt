-- ===== src/Erl/Tests.antt =====
-- src/erl/server2.c: a small integer, and SIGINT while the server waits for the next message.
use zmq_test.Common.{
  ℕ, ◌≡◌, refl, Option, none, some, true, false, List, [], ◌∷◌, replicate, head?, drop,
}
use zmq_test.Base.Transport.{s_recv}
use zmq_test.Erl.Server2.{
  parent, fork_gave, waited, receive_integer, killing, slept, Server, stopped, receive, run,
}
use zmq_test.Erl.Server2.Interrupted.{quiet, interrupted, read, run-repeats}

-- The first byte of a term tells its type.
abbrev first_byte : Option ℕ → Option (ℕ × ℕ)
first_byte none = none
first_byte (some c) = some (c, 1)

abbrev get_type : List ℕ → ℕ → Option (ℕ × ℕ)
get_type buffer index = first_byte (head? (drop index buffer))

abbrev server : Server
server = record {
  process = record { interrupted = false; handled = λ n. true };
  buffer = replicate 256 0;
  type = 0;
  trace = [];
}

run-repeats_example :
    let s = read get_type 97 70 server (131 ∷ 97 ∷ 5 ∷ []) in
    run get_type 97 70 server (
      quiet get_type 97 70 (131 ∷ 97 ∷ 5 ∷ []) parent
      ∷ interrupted get_type 97 70 2 [] parent []
      ∷ [])
    ≡ stopped (record {
      process = record { interrupted = true; handled = λ n. true };
      buffer = s.buffer;
      type = s.type;
      trace =
          fork_gave parent
          ∷ waited
          ∷ receive_integer
          ∷ slept 1
          ∷ fork_gave parent
          ∷ waited
          ∷ receive_integer
          ∷ killing
          ∷ [];
    })
unfolding receive s_recv
run-repeats_example =
    run-repeats get_type 97 70 server (131 ∷ 97 ∷ 5 ∷ []) parent parent 2 [] [] [] refl (refl, tt)
      (λ e. cc) (λ e. cc)
