-- ===== src/Loadbalance/Whole/Moves.antt =====
-- What a turn of the broker moves, told with the queue of Loadbalance/Lists/Service.
use zmq_test.Common.{
  ℕ, ◌+◌, ◌≤◌, ◌<◌, ◌≡◌, ◌⊎◌, refl, sym, ap, ◌∙◌, inl, inr, Option, none, some, false, List, [],
  ◌∷◌, ◌++◌, length, length-append, All, All-append, append-nil, append_assoc, arith,
}
use zmq_test.Czmq.{Frame, Msg}
use zmq_test.Base.Strings.{IsText}
use zmq_test.Loadbalance.Array.{starts_with_w}
use zmq_test.Loadbalance.Lists
use zmq_test.Loadbalance.Lists.{is_ready}
use zmq_test.Loadbalance.Lists.Service.{Service, heard, given_in_turn}
use zmq_test.Loadbalance.Equivalence.{
  Said, ready, done, IsName, IsSaid, IsAsked, lists_said, lists_asked,
}
use zmq_test.Loadbalance.Whole.{jobs_of}
use zmq_test.Loadbalance.Whole.Weights.{weigh, weigh-append, weight_of, Maybe}

-- Names that fit the arrays of the tasks, and clients' names.
abbrev pub IsShort : Frame → Type 0
IsShort s = (length s < 16) × IsText s

abbrev pub IsClientName : Frame → Type 0
IsClientName c = IsShort c × (starts_with_w c ≡ false) × (is_ready c ≡ false)

abbrev pub IsTold : Said → Type 0
IsTold (ready id) = IsShort id
IsTold (done id c m) = IsShort id × IsClientName c × IsName m

abbrev pub IsRequest : Frame × Frame → Type 0
IsRequest (c, m) = IsClientName c × IsName m

abbrev pub IsJob : Frame × Msg → Type 0
IsJob (id, c ∷ [] ∷ m ∷ []) = IsShort id × IsClientName c
IsJob _ = ⊥

pub short-IsName : (s : Frame) → IsShort s → IsName s
short-IsName s h = (omega (arith, h.0), h.1)

pub told-IsSaid : (w : Option Said) → Maybe IsTold w → IsSaid w
told-IsSaid none h = tt
told-IsSaid (some (ready id)) h = short-IsName id h
told-IsSaid (some (done id c m)) (hi, (hc, hw, hr), hm) =
    (short-IsName id hi, (short-IsName c hc, hw, hr), hm)

pub request-IsAsked : (q : Option (Frame × Frame)) → Maybe IsRequest q → IsAsked q
request-IsAsked none h = tt
request-IsAsked (some (c, m)) ((hc, hw, hr), hm) = ((short-IsName c hc, hw, hr), hm)

-- Whom a message of the frontend is for.
abbrev pub addressee : Msg → Frame
addressee [] = []
addressee (c ∷ m) = c

-- The client of each message, weighed.
module _ (weight : Frame → ℕ) where
  abbrev pub of_said : Said → ℕ
  of_said (ready id) = 0
  of_said (done id c m) = weight c

  abbrev pub of_request : Frame × Frame → ℕ
  of_request (c, m) = weight c

  abbrev pub of_job : Frame × Msg → ℕ
  of_job (id, []) = 0
  of_job (id, c ∷ m) = weight c

  abbrev pub of_reply : Lists.Effect → ℕ
  of_reply (Lists.to_frontend m) = weight (addressee m)
  of_reply (Lists.to_backend m) = 0

abbrev said_moves : Option Said → List Lists.Effect
said_moves none = []
said_moves (some (ready id)) = []
said_moves (some (done id c m)) = Lists.to_frontend (c ∷ [] ∷ m ∷ []) ∷ []

abbrev asked_moves : List Frame → Option (Frame × Frame) → List Lists.Effect
asked_moves (id ∷ free) (some (c, m)) = Lists.to_backend (id ∷ [] ∷ c ∷ [] ∷ m ∷ []) ∷ []
asked_moves _ _ = []

-- What the queue does in a turn with these.
abbrev pub served : Service → Option Said → Option (Frame × Frame) → Service
served s w q = given_in_turn s.0 (heard s (lists_said w)) (lists_asked q)

-- A turn only adds to what was sent: the reply of the worker that spoke, and the request, as a job of
-- a worker. The worker that spoke is free then, and the worker with the job is not.
pub record Moved (s u : Service) (w : Option Said) (q : Option (Frame × Frame)) : Type 0 where
  pub moves : List Lists.Effect
  pub grows : u.1 ≡ s.1 ++ moves
  pub workers : length u.0 + length (jobs_of moves) ≡ length s.0 + weight_of (λ x. 1) w
  pub jobs : length (jobs_of moves) ≡ weight_of (λ x. 1) q
  pub replied : (weight : Frame → ℕ) → weigh (of_reply weight) moves ≡ weight_of (of_said weight) w
  pub requested :
      (weight : Frame → ℕ) → weigh (of_job weight) (jobs_of moves) ≡ weight_of (of_request weight) q
  pub free_names : All IsShort u.0
  pub job_names : All IsJob (jobs_of moves)

heard-moves :
    (s : Service) (w : Option Said)
    → Maybe IsTold w
    → All IsShort s.0
    → ((heard s (lists_said w)).1 ≡ s.1 ++ said_moves w)
      × (length (heard s (lists_said w)).0 ≡ length s.0 + weight_of (λ x. 1) w)
      × All IsShort (heard s (lists_said w)).0
heard-moves s none h a = (sym (append-nil s.1), omega arith, a)
heard-moves s (some (ready id)) h a =
    (sym (append-nil s.1), length-append s.0 (id ∷ []), All-append IsShort s.0 (id ∷ []) a (h, tt))
heard-moves s (some (done id c m)) (hi, (hc, hw, hr), hm) a =
    rw hr (refl, length-append s.0 (id ∷ []), All-append IsShort s.0 (id ∷ []) a (hi, tt))

said_moves-Moved :
    (s : Service) (w : Option Said)
    → Maybe IsTold w
    → All IsShort s.0
    → Moved s (heard s (lists_said w)) w none
said_moves-Moved s w h a =
    let (e, n, v) = heard-moves s w h a in
    record {
      moves = said_moves w;
      grows = e;
      workers = omega (arith, n, ap length (no_jobs w));
      jobs = ap length (no_jobs w);
      replied = λ weight. replied_of weight w;
      requested = λ weight. ap (weigh (of_job weight)) (no_jobs w);
      free_names = v;
      job_names = subst_jobs w;
    }
  where
    no_jobs : (o : Option Said) → jobs_of (said_moves o) ≡ []
    no_jobs none = refl
    no_jobs (some (ready id)) = refl
    no_jobs (some (done id c m)) = refl

    replied_of :
        (weight : Frame → ℕ) (o : Option Said)
        → weigh (of_reply weight) (said_moves o) ≡ weight_of (of_said weight) o
    replied_of weight none = refl
    replied_of weight (some (ready id)) = refl
    replied_of weight (some (done id c m)) = omega arith

    subst_jobs : (o : Option Said) → All IsJob (jobs_of (said_moves o))
    subst_jobs none = tt
    subst_jobs (some (ready id)) = tt
    subst_jobs (some (done id c m)) = tt

jobs_of-append : (es fs : List Lists.Effect) → jobs_of (es ++ fs) ≡ jobs_of es ++ jobs_of fs
jobs_of-append [] fs = refl
jobs_of-append (Lists.to_frontend m ∷ es) fs = jobs_of-append es fs
jobs_of-append (Lists.to_backend [] ∷ es) fs = jobs_of-append es fs
jobs_of-append (Lists.to_backend (id ∷ []) ∷ es) fs = jobs_of-append es fs
jobs_of-append (Lists.to_backend (id ∷ e ∷ m) ∷ es) fs = ap (◌∷◌ (id, m)) (jobs_of-append es fs)

-- A request for a free worker.
given-Moved :
    (s : Service) (id : Frame) (free : List Frame) (out : List Lists.Effect) (w : Option Said)
    (c m : Frame)
    → Moved s (id ∷ free, out) w none
    → IsClientName c
    → Moved s (free, out ++ Lists.to_backend (id ∷ [] ∷ c ∷ [] ∷ m ∷ []) ∷ []) w (some (c, m))
given-Moved s id free out w c m v h =
    let given = Lists.to_backend (id ∷ [] ∷ c ∷ [] ∷ m ∷ []) ∷ [] in
    let j = jobs_of-append v.moves given in
    let n = ap length j ∙ length-append (jobs_of v.moves) (jobs_of given) in
    record {
      moves = v.moves ++ given;
      grows = ap (λ l. l ++ given) v.grows ∙ append_assoc s.1 v.moves given;
      workers = omega (arith, n, v.workers);
      jobs = omega (arith, n, v.jobs);
      replied =
          λ weight. omega (arith, weigh-append (of_reply weight) v.moves given, v.replied weight);
      requested = λ weight. omega (
        arith,
        ap (weigh (of_job weight)) j,
        weigh-append (of_job weight) (jobs_of v.moves) (jobs_of given),
        v.requested weight,
      );
      free_names = v.free_names.1;
      job_names = rw j (
          All-append IsJob (jobs_of v.moves) (jobs_of given) v.job_names ((v.free_names.0, h), tt));
    }

-- The frontend's part.
asked-Moved :
    (free : List Frame) (s t : Service) (w : Option Said) (q : Option (Frame × Frame))
    → Moved s t w none
    → Maybe IsRequest q
    → (q ≡ none) ⊎ (1 ≤ length free)
    → length free ≤ length t.0
    → Moved s (given_in_turn free t (lists_asked q)) w q
asked-Moved [] s t w none v h p l = v
asked-Moved (id ∷ free) s ([], out) w none v h p l = v
asked-Moved (id ∷ free) s (x ∷ xs, out) w none v h p l = v
asked-Moved [] s t w (some (c, m)) v h (inl e) l = cc
asked-Moved [] s t w (some (c, m)) v h (inr e) l = absurd (omega (arith, e))
asked-Moved (id ∷ free) s ([], out) w (some (c, m)) v h p l = absurd (omega (arith, l))
asked-Moved (id ∷ free) s (x ∷ xs, out) w (some (c, m)) v (hc, hm) p l =
    given-Moved s x xs out w c m v hc

pub served-Moved :
    (s : Service) (w : Option Said) (q : Option (Frame × Frame))
    → Maybe IsTold w
    → Maybe IsRequest q
    → All IsShort s.0
    → (q ≡ none) ⊎ (1 ≤ length s.0)
    → Moved s (served s w q) w q
served-Moved s w q hw hq a p =
    let v = said_moves-Moved s w hw a in
    asked-Moved s.0 s (heard s (lists_said w)) w q v hq p (omega (arith, (heard-moves s w hw a).1))
