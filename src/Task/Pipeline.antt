-- ===== src/Task/Pipeline.antt =====
-- The programs of src/task together. Any worker may get any task, and the messages reach the sink in
-- any order, its start signal among them.
pub mod Progress
use zmq_test.Common.{ℕ, suc, ◌+◌, ◌≡◌, Option, some, none, Bool, true, false, List, [], ◌∷◌, ◌++◌}
use zmq_test.Czmq.{Frame}
use zmq_test.Base.Numbers.{Decimals}
use zmq_test.Task.Ventilator
use zmq_test.Task.Ventilator.{ventilator, signal}
use zmq_test.Task.Worker
use zmq_test.Task.Worker.{effects_of, outputs}
use zmq_test.Task.Sink
use zmq_test.Task.Sink.{Sink, idle, on_message}

-- `unsent` are the tasks that the ventilator has still to send, `waiting` the ones that are with a
-- worker, each with the worker's number, `results` what is on the way to the sink, and `log` what
-- the workers did.
pub record System : Type 0 where
  pub unsent : List Frame
  pub waiting : List (ℕ × Frame)
  pub log : List Worker.Effect
  pub results : List Frame
  pub sink : Sink
  pub controls : List Frame

module _ (D : Decimals) where
  -- The ventilator sends its next task, to worker i; a worker takes up a task; the sink takes a
  -- message, at some time.
  pub data Step (s : System) : System → Type 0 where
    push :
        (i : ℕ) (f : Frame) (fs : List Frame)
        → s.unsent ≡ f ∷ fs
        → Step s (record s { unsent = fs; waiting = s.waiting ++ (i, f) ∷ [] })
    work :
        (xs : List (ℕ × Frame)) (i : ℕ) (f : Frame) (ys : List (ℕ × Frame))
        → s.waiting ≡ xs ++ (i, f) ∷ ys
        → Step s (record s {
          waiting = xs ++ ys;
          log = s.log ++ effects_of D f;
          results = s.results ++ outputs (effects_of D f);
        })
    collect :
        (xs : List Frame) (f : Frame) (ys : List Frame) (now : ℕ)
        → s.results ≡ xs ++ f ∷ ys
        → Step s (record s {
          results = xs ++ ys;
          sink = (on_message s.sink f now).0;
          controls = s.controls ++ (on_message s.sink f now).1;
        })

  -- The ventilator has sent its signal to the sink.
  abbrev pub start : (ℕ → ℕ) → System
  start draw = record {
    unsent = (ventilator D draw).tasks;
    waiting = [];
    log = [];
    results = signal ∷ [];
    sink = idle;
    controls = [];
  }
