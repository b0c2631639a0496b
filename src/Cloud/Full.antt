-- ===== src/Cloud/Full.antt =====
-- The client and worker tasks of src/cloud/full.c. `tasks i` is the text that sprintf leaves in
-- `task_id` for the i-th task; what it is for an int and "%04s", C does not say. `env i` is what the
-- poll behind the i-th task shows.
pub mod Bursts
use zmq_test.Common.{
  ℕ, zero, suc, ◌+◌, Option, none, some, Bool, true, false, List, [], ◌∷◌, ◌++◌, if◌then◌else◌,
  streq,
}
use zmq_test.Czmq.{Frame, Msg}
use zmq_test.Base.Random.{randof}

-- The poll fails or times out, or `zstr_recv` gives a reply or NULL.
pub data Event : Type 0 where
  failed : Event
  expired : Event
  readable : Option (List ℕ) → Event

-- What was sent to the broker and to the monitor.
pub record Client : Type 0 where
  pub sent : List (List ℕ)
  pub monitored : List (List ℕ)

-- The task goes on with the next number of a task, ends, or fails an assertion.
pub data Outcome : Type 0 where
  running : ℕ → Client → Outcome
  ended : Client → Outcome
  aborted : Outcome

infixl 5 ◌>>=◌
abbrev pub ◌>>=◌ : Outcome → (ℕ → Client → Outcome) → Outcome
running i self >>= f = f i self
ended self >>= f = ended self
aborted >>= f = aborted

-- "E: CLIENT EXIT - lost task %s"
pub lost : List ℕ → List ℕ
lost task_id =
    (b'E' ∷ b':' ∷ b' ' ∷ b'C' ∷ b'L' ∷ b'I' ∷ b'E' ∷ b'N' ∷ b'T' ∷ b' ' ∷ b'E' ∷ b'X' ∷ b'I' ∷ b'T'
      ∷ b' ' ∷ b'-' ∷ b' ' ∷ b'l' ∷ b'o' ∷ b's' ∷ b't' ∷ b' ' ∷ b't' ∷ b'a' ∷ b's' ∷ b'k' ∷ b' '
      ∷ [])
    ++ task_id

abbrev pub start : Client
start = record { sent = []; monitored = [] }

-- What the poll behind a task leads to; `rest` is what follows the reply of the broker.
pub on_event : List ℕ → ℕ → Client → (List ℕ → Outcome) → Event → Outcome
unfolding lost
on_event task_id i self rest failed = running (i + 1) self
on_event task_id i self rest (readable none) = running (i + 1) self
on_event task_id i self rest (readable (some reply)) =
    if streq reply task_id then rest reply else aborted
on_event task_id i self rest expired =
    ended (record self { monitored = self.monitored ++ lost task_id ∷ [] })

module _ (tasks : ℕ → List ℕ) (env : ℕ → Event) where
  -- The loop over a burst, with what is left of it.
  pub burst_loop : ℕ → ℕ → Client → Outcome
  unfolding on_event
  burst_loop zero i self = running i self
  burst_loop (suc burst) i self =
      let self' = record self { sent = self.sent ++ tasks i ∷ [] } in
      on_event (tasks i) i self'
        (λ reply.
          burst_loop burst (i + 1) (record self' { monitored = self.monitored ++ reply ∷ [] }))
        (env i)

  -- The bursts of `_client_task`, with what `random()` gives for each.
  pub client_task : List ℕ → ℕ → Client → Outcome
  unfolding burst_loop
  client_task [] i self = running i self
  client_task (random ∷ randoms) i self =
      burst_loop (randof 15 random) i self >>= λ j next. client_task randoms j next

-- What `_worker_task` sends: that it is ready, and each message again, up to a NULL.
pub worker_loop : List (Option Msg) → List Msg
worker_loop [] = []
worker_loop (none ∷ msgs) = []
worker_loop (some msg ∷ msgs) = msg ∷ worker_loop msgs

pub worker_task : List (Option Msg) → List Msg
unfolding worker_loop
worker_task msgs = ((1 ∷ []) ∷ []) ∷ worker_loop msgs
