-- ===== src/Task/Sink.antt =====
-- src/task/sink.c, `main`: it waits for the start, and then for a hundred results.
pub mod Counting
use zmq_test.Common.{ℕ, ◌+◌, ◌-◌, ◌%◌, Bool, true, false, List, [], ◌∷◌, ◌++◌, ◌==◌, if◌then◌else◌}
use zmq_test.Czmq.{Frame}

-- The two readings of the clock come with the phases, and the marks are what was printed.
pub data Sink : Type 0 where
  idle : Sink
  collecting : ℕ → ℕ → List ℕ → Sink
  done : ℕ → List ℕ → Sink

-- "KILL"
abbrev pub kill : Frame
kill = b'K' ∷ b'I' ∷ b'L' ∷ b'L' ∷ []

-- ":" for each tenth result, "." for the others
pub mark : ℕ → ℕ
mark task_nbr = if task_nbr % 10 == 0 then b':' else b'.'

-- What the sink does with a message, at a time: the first starts the clock, and the hundredth after it
-- stops it, with the message that ends the workers. None of the texts is looked at.
pub on_message : Sink → Frame → ℕ → Sink × List Frame
unfolding mark
on_message idle string now = (collecting 0 now [], [])
on_message (collecting task_nbr start_time marks) string now =
    let marks' = marks ++ mark task_nbr ∷ [] in
    if task_nbr + 1 == 100
    then (done (now - start_time) marks', kill ∷ [])
    else (collecting (task_nbr + 1) start_time marks', [])
on_message (done elapsed marks) string now = (done elapsed marks, [])
