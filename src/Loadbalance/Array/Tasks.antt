-- ===== src/Loadbalance/Array/Tasks.antt =====
-- The clients and workers of src/loadbalance/lbbroker.c: what they send, with the identity that each
-- has set, and what the broker's sockets make of it.
use zmq_test.Common.{
  ◌≡◌, ◌≢◌, ◌+◌, ◌<◌, append-nil, length, length-append, All-append, arith, true, false, ℕ, refl,
  List, [], ◌∷◌, ◌++◌,
}
use zmq_test.Czmq.{Frame, Msg}
use zmq_test.Base.Strings.{received, IsText}
use zmq_test.Loadbalance.Array.{starts_with_w}
use zmq_test.Loadbalance.Array.Handling.{ClientMsg, WorkerMsg, ready, done, asks}

-- `_strcat`: the strings one behind the other.
pub strcat : List (List ℕ) → List ℕ
strcat [] = []
strcat (src ∷ rest) = src ++ strcat rest

-- "c[…]:hello" of `_client_task`
pub hello : List ℕ → List ℕ
unfolding strcat
hello client_id =
    strcat
      ((b'c' ∷ b'[' ∷ []) ∷ client_id ∷ (b']' ∷ b':' ∷ b'h' ∷ b'e' ∷ b'l' ∷ b'l' ∷ b'o' ∷ []) ∷ [])

-- "w[…]:ready" and "w[…]:ok" of `_worker_task`
pub said_ready : List ℕ → List ℕ
unfolding strcat
said_ready worker_id =
    strcat
      ((b'w' ∷ b'[' ∷ []) ∷ worker_id ∷ (b']' ∷ b':' ∷ b'r' ∷ b'e' ∷ b'a' ∷ b'd' ∷ b'y' ∷ []) ∷ [])

pub said_ok : List ℕ → List ℕ
unfolding strcat
said_ok worker_id = strcat ((b'w' ∷ b'[' ∷ []) ∷ worker_id ∷ (b']' ∷ b':' ∷ b'o' ∷ b'k' ∷ []) ∷ [])

-- What `_client_task` sends.
pub client_task : List ℕ → Msg
unfolding hello
client_task client_id = hello client_id ∷ []

-- What `_worker_task` sends first, and for a request: the first frame, an empty one, and its text.
pub worker_task_ready : List ℕ → Msg
unfolding said_ready
worker_task_ready worker_id = said_ready worker_id ∷ []

pub worker_task_reply : List ℕ → Frame → Msg
unfolding said_ok
worker_task_reply worker_id id = received 256 id ∷ [] ∷ said_ok worker_id ∷ []

-- A REQ socket puts an empty frame in front, and the ROUTER socket the name of the sender.
abbrev pub routed : Frame → Msg → Msg
routed name m = name ∷ [] ∷ m

-- Every message of the tasks is of the kind that the broker relies on, whatever the identities and
-- the requests are, if the client's name does not start with w: what a worker says first starts with w, and its answers name the client in
-- their third frame.
pub tasks_lem :
    (name id : Frame) (s : List ℕ)
    → starts_with_w (received 256 (received 256 id)) ≡ false
    → ClientMsg (routed name (client_task s))
      × WorkerMsg (routed name (worker_task_ready s))
      × WorkerMsg (routed name (worker_task_reply s id))
unfolding client_task worker_task_ready worker_task_reply
tasks_lem name id s h =
    (asks name (hello s), ready name (said_ready s) refl, done name (received 256 id) (said_ok s) h)

-- A worker's first text is told by its first letter.
pub said_ready-starts : (s : List ℕ) → starts_with_w (received 256 (said_ready s)) ≡ true
unfolding said_ready
said_ready-starts s = refl

-- The texts fit the arrays of the tasks, and what receives them.
strcat-fits :
    (n : ℕ) (front s behind : List ℕ)
    → IsText front
    → IsText s
    → IsText behind
    → length front + length s + length behind < n
    → (length (strcat (front ∷ s ∷ behind ∷ [])) < n) × IsText (strcat (front ∷ s ∷ behind ∷ []))
unfolding strcat
strcat-fits n front s behind hf hs hb h = rw (append-nil behind) (
  omega (arith, h, length-append front (s ++ behind), length-append s behind),
  All-append (λ c. c ≢ 0) front (s ++ behind) hf (All-append (λ c. c ≢ 0) s behind hs hb),
)

pub hello-fits :
    (s : List ℕ) → IsText s → length s < 16 → (length (hello s) < 256) × IsText (hello s)
unfolding hello
hello-fits s t h =
    strcat-fits 256 (b'c' ∷ b'[' ∷ []) s (b']' ∷ b':' ∷ b'h' ∷ b'e' ∷ b'l' ∷ b'l' ∷ b'o' ∷ [])
      (omega arith, (omega arith, tt)) t
      (
        omega arith,
        (
          omega arith,
          (omega arith, (omega arith, (omega arith, (omega arith, (omega arith, tt))))),
        ),
      )
      (omega arith)

pub said_ok-fits :
    (s : List ℕ) → IsText s → length s < 16 → (length (said_ok s) < 256) × IsText (said_ok s)
unfolding said_ok
said_ok-fits s t h =
    strcat-fits 256 (b'w' ∷ b'[' ∷ []) s (b']' ∷ b':' ∷ b'o' ∷ b'k' ∷ [])
      (omega arith, (omega arith, tt)) t
      (omega arith, (omega arith, (omega arith, (omega arith, tt)))) (omega arith)
