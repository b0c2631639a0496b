-- ===== src/Task/Worker.antt =====
-- src/task/worker.c, the loop of `main`.
pub mod Sleeping
use zmq_test.Common.{ℕ, Option, none, some, Bool, true, false, List, [], ◌∷◌}
use zmq_test.Czmq.{Frame}
use zmq_test.Base.Strings.{received}
use zmq_test.Base.Numbers.{Decimals}
use zmq_test.Base.Time.{Timespec, s_sleep}

-- What a poll shows: a task, and whether the controller said something.
pub record Poll : Type 0 where
  pub task : Option Frame
  pub controlled : Bool

pub data Effect : Type 0 where
  slept : Timespec → Effect
  sent : Frame → Effect

-- The frames that a worker sent in a turn.
abbrev pub outputs : List Effect → List Frame
outputs [] = []
outputs (slept t ∷ es) = outputs es
outputs (sent f ∷ es) = f ∷ outputs es

module _ (D : Decimals) where
  -- What is done with a task.
  pub work : Option Frame → List Effect
  work none = []
  work (some frame) =
      let string = received 256 frame in slept (s_sleep (D.atoi string)) ∷ sent string ∷ []

  -- One turn, and whether the loop goes on.
  pub turn : Poll → List Effect × Bool
  unfolding work
  turn p = (work p.task, elim p.controlled [ true ↦ false | false ↦ true ])

  -- What a worker does when a poll shows this task, and no message that ends it: there is none before
  -- the sink is done.
  abbrev pub effects_of : Frame → List Effect
  effects_of f = (turn (record { task = some f; controlled = false })).0
