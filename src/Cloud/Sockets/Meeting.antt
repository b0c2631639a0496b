-- ===== src/Cloud/Sockets/Meeting.antt =====
-- Which sockets of src/cloud find each other in a network of brokers.
use zmq_test.Common.{
  ℕ, length, ◌==◌, if◌then◌else◌, Bool-cases, ◌≡◌, refl, sym, subst, inl, inr, Bool, true, false,
  List, [], ◌∷◌, ◌++◌, map, replicate, All, All-append, All-mono,
}
use zmq_test.Common.Any.{
  Any, Among, Any-append_left, Any-append_right, All-replicate, Among-map, Pairs, Pairs-map,
  Pairs-mono,
}
use zmq_test.Cloud.Sockets.{
  Name, Kind, router, pub_, sub, pull, push, req, rep, Socket, localfe_ipc, localbe_ipc,
  monitor_ipc, cloud_ipc, state_ipc, stateflow, lcflow, full, nbr_clients, connects,
}

-- The kinds of sockets that ZeroMQ lets talk to each other: what its manual says of those that the
-- programs make, the first one connecting to the second.
pub record Patterns : Type 0 where
  pub talks : Kind → Kind → Bool
  pub router-router : talks router router ≡ true
  pub req-router : talks req router ≡ true
  pub rep-router : talks rep router ≡ false
  pub sub-pub : talks sub pub_ ≡ true
  pub sub-sub : talks sub sub ≡ false
  pub push-pull : talks push pull ≡ true

-- Brokers by name, each with its peers.
abbrev pub Network : Type 0
Network = List (Name × List Name)

-- A network in which each peer is started.
abbrev pub IsComplete : Network → Type 0
IsComplete net = All (λ b. All (λ p. Among p (map (λ c. c.0) net)) b.1) net

-- The brokers that a socket is to reach: a socket between brokers those of the peers, one of a task
-- its own, and a socket that is bound none.
abbrev pub meant : Kind → Name → List Name → List Name
meant router name peers = peers
meant sub name peers = peers
meant pub_ name peers = []
meant pull name peers = []
meant req name peers = name ∷ []
meant rep name peers = name ∷ []
meant push name peers = name ∷ []

abbrev pub reached : Socket → Name → List Name → List Name
reached s name peers = if length s.bound == 0 then meant s.kind name peers else []

reached-All :
    (Q : Name → Type 0) (s : Socket) (name : Name) (peers : List Name)
    → Q name
    → All Q peers
    → All Q (reached s name peers)
reached-All Q s name peers h hp = elim (Bool-cases (length s.bound == 0)) [
  | inl e ↦ rw e (of_kind s.kind)
  | inr e ↦ rw e tt
]
  where
    of_kind : (k : Kind) → All Q (meant k name peers)
    of_kind router = hp
    of_kind sub = hp
    of_kind pub_ = tt
    of_kind pull = tt
    of_kind req = (h, tt)
    of_kind rep = (h, tt)
    of_kind push = (h, tt)

module _ (P : Patterns) (program : Name → List Name → List Socket) (sound : Kind → Bool) where
  -- The sockets of all brokers, each with the name of its broker.
  abbrev pub sockets : Network → List (Name × Socket)
  sockets [] = []
  sockets ((name, peers) ∷ net) = map (λ s. (name, s)) (program name peers) ++ sockets net

  -- A socket that is bound to the address, and talks to the kind if that is sound.
  abbrev pub Meets : Kind → List ℕ → Socket → Type 0
  Meets k a t = Among a t.bound × (P.talks k t.kind ≡ sound k)

  -- Such a socket of the broker with this name.
  abbrev pub MeetsAt : Name → Kind → List ℕ → Name × Socket → Type 0
  MeetsAt n k a (name, t) = (name ≡ n) × Meets k a t

  -- A broker's socket has one connection for each of the brokers that it is to reach, in their order,
  -- and each meets a socket of that broker.
  abbrev pub IsMet : Network → Name × List Name → Socket → Type 0
  IsMet net (name, peers) s =
      Pairs (λ a n. Any (MeetsAt n s.kind a) (sockets net)) s.connected (reached s name peers)

  -- All sockets of all brokers.
  abbrev pub IsConnected : Network → Type 0
  IsConnected net = All (λ b. All (IsMet net b) (program b.0 b.1)) net

  -- What a program has to do for that: connect to what the broker that is meant binds, whatever that
  -- one's peers are.
  abbrev Local : Name → List Name → Socket → Type 0
  Local name peers s =
      Pairs (λ a n. (others : List Name) → Any (Meets s.kind a) (program n others)) s.connected
        (reached s name peers)

  Any-owned :
      (Q : Socket → Type 0) (name n : Name) (ss : List Socket)
      → name ≡ n
      → Any Q ss
      → Any (λ (o : Name × Socket). (o.0 ≡ n) × Q o.1) (map (λ s. (name, s)) ss)
  Any-owned Q name n [] e h = absurd h
  Any-owned Q name n (s ∷ ss) e (inl h) = inl (e, h)
  Any-owned Q name n (s ∷ ss) e (inr h) = inr (Any-owned Q name n ss e h)

  Any-network :
      (Q : Socket → Type 0) (n : Name) (net : Network)
      → Among n (map (λ b. b.0) net)
      → ((others : List Name) → Any Q (program n others))
      → Any (λ (o : Name × Socket). (o.0 ≡ n) × Q o.1) (sockets net)
  Any-network Q n [] h k = absurd h
  Any-network Q n ((name, peers) ∷ net) (inl e) k =
      Any-append_left _ (map (λ s. (name, s)) (program name peers)) (sockets net) (
        Any-owned Q name n (program name peers) (sym e)
          (subst (λ m. Any Q (program m peers)) e (k peers)))
  Any-network Q n ((name, peers) ∷ net) (inr h) k =
      Any-append_right _ (map (λ s. (name, s)) (program name peers)) (sockets net)
        (Any-network Q n net h k)

  Local-IsMet :
      (n : Name) (peers : List Name) (net : Network) (s : Socket)
      → Among n (map (λ b. b.0) net)
      → All (λ p. Among p (map (λ b. b.0) net)) peers
      → Local n peers s
      → IsMet net (n, peers) s
  Local-IsMet n peers net s h hp k =
      Pairs-mono (λ m. Among m (map (λ b. b.0) net)) _ _
        (λ a m known meets. Any-network (Meets s.kind a) m net known meets) s.connected
        (reached s n peers) (reached-All _ s n peers h hp) k

  parts-IsMet :
      ((n : Name) (peers : List Name) → All (Local n peers) (program n peers))
      → (net rest : Network) → All (λ b. Among b.0 (map (λ c. c.0) net)) rest
      → All (λ b. All (λ p. Among p (map (λ c. c.0) net)) b.1) rest
      → All (λ b. All (IsMet net b) (program b.0 b.1)) rest
  parts-IsMet local net [] h k = tt
  parts-IsMet local net ((n, peers) ∷ rest) h k = (
    All-mono _ (IsMet net (n, peers)) (λ s. Local-IsMet n peers net s h.0 k.0) (program n peers)
        (local n peers),
    parts-IsMet local net rest h.1 k.1,
  )

  network-IsMet :
      ((n : Name) (peers : List Name) → All (Local n peers) (program n peers))
      → (net : Network) → IsComplete net
      → IsConnected net
  network-IsMet local net h = parts-IsMet local net net (Among-map (λ b. b.0) net) h

-- Which kinds each program uses as ZeroMQ asks.
abbrev pub all_sound : Kind → Bool
all_sound k = true

-- The REP sockets of the tasks do not talk to the ROUTER sockets.
abbrev pub unless_rep : Kind → Bool
unless_rep rep = false
unless_rep k = true

-- Nothing is published to the SUB sockets.
abbrev pub unless_sub : Kind → Bool
unless_sub sub = false
unless_sub k = true

module _ (P : Patterns) where
  stateflow-Local :
      (n : Name) (peers : List Name) → All (Local P stateflow all_sound n peers) (stateflow n peers)
  unfolding stateflow
  stateflow-Local n peers =
      (tt, (Pairs-map _ state_ipc peers (λ m others. inl (inl refl, P.sub-pub)), tt))

  lcflow-Local :
      (n : Name) (peers : List Name) → All (Local P lcflow unless_rep n peers) (lcflow n peers)
  unfolding lcflow
  lcflow-Local n peers =
      let front = Pairs-map _ cloud_ipc peers (λ m others. inl (inl refl, P.router-router)) in
      let workers =
        All-replicate (Local P lcflow unless_rep n peers) 3 (connects rep (localbe_ipc n ∷ []))
          ((λ others. inr (inr (inr (inl (inl refl, P.rep-router))))), tt) in
      let clients =
        All-replicate (Local P lcflow unless_rep n peers) 10 (connects rep (localfe_ipc n ∷ []))
          ((λ others. inr (inr (inl (inl refl, P.rep-router)))), tt) in
      (
        tt,
        (
          front,
          (
            tt,
            (
              tt,
              All-append (Local P lcflow unless_rep n peers)
                  (replicate 3 (connects rep (localbe_ipc n ∷ [])))
                  (replicate nbr_clients (connects rep (localfe_ipc n ∷ []))) workers clients,
            ),
          ),
        ),
      )

  full-Local : (n : Name) (peers : List Name) → All (Local P full unless_sub n peers) (full n peers)
  unfolding full
  full-Local n peers =
      let cloud =
        Pairs-map _ cloud_ipc peers (λ m others. inr (inr (inl (inl refl, P.router-router)))) in
      let state =
        Pairs-map _ state_ipc peers
          (λ m others. inr (inr (inr (inr (inl (inl refl, P.sub-sub)))))) in
      let workers =
        All-replicate (Local P full unless_sub n peers) 5 (connects req (localbe_ipc n ∷ []))
          ((λ others. inr (inl (inl refl, P.req-router))), tt) in
      let clients =
        All-replicate (Local P full unless_sub n peers) 10 (connects req (localfe_ipc n ∷ []))
          ((λ others. inl (inl refl, P.req-router)), tt) in
      let monitors =
        All-replicate (Local P full unless_sub n peers) 10 (connects push (monitor_ipc n ∷ []))
          ((λ others. inr (inr (inr (inr (inr (inr (inl (inl refl, P.push-pull)))))))), tt) in
      let both =
        All-append (Local P full unless_sub n peers)
          (replicate nbr_clients (connects req (localfe_ipc n ∷ [])))
          (replicate nbr_clients (connects push (monitor_ipc n ∷ []))) clients monitors in
      let rest =
        All-append (Local P full unless_sub n peers)
          (replicate 5 (connects req (localbe_ipc n ∷ [])))
          (replicate nbr_clients (connects req (localfe_ipc n ∷ []))
            ++ replicate nbr_clients (connects push (monitor_ipc n ∷ [])))
          workers both in
      (tt, (tt, (tt, (cloud, (tt, (state, (tt, rest)))))))

  -- In a network in which each peer of a broker is started, each socket of src/cloud that connects
  -- has one connection for each broker that it is meant for, in their order: a socket between
  -- brokers for each of the peers, and a socket of a client or a worker for its own. A socket of that
  -- broker is bound to the address. With stateflow.c the two sockets also talk to each other.
  -- With lcflow.c they do unless the one is the REP socket of a client or a worker, and with full.c
  -- unless it is the SUB socket that is to hear the states.
  pub network-IsMet_all :
      (net : Network)
      → IsComplete net
      → IsConnected P stateflow all_sound net
        × IsConnected P lcflow unless_rep net
        × IsConnected P full unless_sub net
  network-IsMet_all net h = (
    network-IsMet P stateflow all_sound stateflow-Local net h,
    network-IsMet P lcflow unless_rep lcflow-Local net h,
    network-IsMet P full unless_sub full-Local net h,
  )
