-- ===== src/Rrb/Whole/Liveness.antt =====
-- The programs of src/rrb end with every reply printed.
use zmq_test.Common.{
  ℕ, suc, ◌+◌, ◌-◌, ◌*◌, ◌≤◌, ◌<◌, ◌≡◌, ◌⊎◌, refl, sym, ap, ◌∙◌, subst, inl, inr, some, Bool, true,
  false, List, [], ◌∷◌, ◌++◌, length, length-append, replicate, All, ltb, ltb→lt, ltb→le,
  append_assoc, Bool-cases, if◌then◌else◌, arith, streq, streq→eq, streq_self,
}
use zmq_test.Common.Bag.{once}
use zmq_test.Common.Weigh.{weigh, weigh-middle}
use zmq_test.Czmq.{Frame, Msg}
use zmq_test.Rrb.Broker.{Poll}
use zmq_test.Rrb.Broker.Passing.{◌then◌}
use zmq_test.Rrb.Client.{Client}
use zmq_test.Rrb.Client as Client
use zmq_test.Rrb.Client.Rounds.{IsClient, world, count, ask-asks, ask-more, hear-idle}
use zmq_test.Rrb.Worker as Worker
use zmq_test.Rrb.Whole.{System, replies, Step, ask, turn, serve, hear}
use zmq_test.Rrb.Whole.Relay.{Hop, turn-Turned, turn_request, turn_reply}
use zmq_test.Rrb.Whole.Invariant.{IsMail, IsReply, of_mail, of_client, Inv, serve-reply}

-- A client at its end.
abbrev pub IsDone : Client → Type 0
IsDone c = (c.request_nbr ≡ 10) × (c.waiting ≡ false) × (c.printed ≡ replicate 10 world)

-- How many steps are left at most: five for each round, one for each hop.
abbrev pub left : Client → ℕ
left c = 5 * (10 - (c.request_nbr + count c.waiting))

abbrev pub measure : System → ℕ
measure s =
    weigh left s.clients
    + 4 * length s.traffic.requests
    + 3 * length s.traffic.requested
    + 2 * length s.traffic.replies
    + length s.traffic.replied

length-Hop :
    (xs ys xs' ys' : List (Frame × Msg)) (n : ℕ)
    → Hop xs ys xs' ys' n
    → (length xs ≡ n + length xs') × (length ys' ≡ length ys + n)
length-Hop xs ys xs' ys' n h = (
  omega (arith, h.one, ap length h.from, length-append h.moved xs'),
  omega (arith, h.one, ap length h.to, length-append ys h.moved),
)

length-middle :
    (xs ys : List (Frame × Msg)) (m : Frame × Msg) → length (xs ++ m ∷ ys) ≡ suc (length (xs ++ ys))
length-middle xs ys m = omega (arith, length-append xs (m ∷ ys), length-append xs ys)

some_event-le :
    (p : Poll) → (p.frontend ≡ true) ⊎ (p.backend ≡ true) → 1 ≤ count p.frontend + count p.backend
some_event-le p (inl e) = omega (arith, ap count e)
some_event-le p (inr e) = omega (arith, ap count e)

pub Step-shrinks :
    (names : List Frame) (s t : System) → Inv names s → Step s t → measure t < measure s
Step-shrinks names s t v (ask xs c d ys call e w q) =
    let (more, new) = ask-asks c d call q in
    omega (
      arith,
      more,
      ap (weigh left) e,
      ap count w,
      ap left new,
      weigh-middle left xs ys c,
      weigh-middle left xs ys d,
      length-append s.traffic.requests ((c.name, [] ∷ call.bytes ∷ []) ∷ []),
    )
Step-shrinks names s t v (turn p u some_event e) =
    let h = turn-Turned s.traffic u p e in
    let qs = length-Hop _ _ _ _ _ h.request in
    let rs = length-Hop _ _ _ _ _ h.reply in
    omega (arith, qs.0, qs.1, rs.0, rs.1, some_event-le p some_event)
Step-shrinks names s t v (serve xs name body ys string e) = omega (
  arith,
  ap length e,
  length-middle xs ys (name, [] ∷ body ∷ []),
  ap length (serve-reply name string body),
  length-append s.traffic.replies (replies name (Worker.serve string (some body)).1),
)
Step-shrinks names s t v (hear xs c ys ms body ns e w q) =
    let idle = hear-idle c (some body) in
    omega (
      arith,
      ap (weigh left) e,
      ap count w,
      ap count idle.1,
      idle.2,
      weigh-middle left xs ys c,
      weigh-middle left xs ys (Client.hear c (some body)),
      ap length q,
      length-middle ms ns (c.name, [] ∷ body ∷ []),
    )

-- Where no message is on its way a client asks, or each has ended.
asks_or_IsDone :
    (s : System) (xs ys : List Client)
    → s.clients ≡ xs ++ ys
    → All IsClient ys
    → weigh (of_client (λ _. 1)) ys ≡ 0
    → ((t : System) × Step s t) ⊎ All IsDone ys
asks_or_IsDone s xs [] e h z = inr tt
asks_or_IsDone s xs (c ∷ ys) e h z = elim (Bool-cases c.waiting) [
  | inl w ↦ absurd (omega (arith, z, ap {B = ℕ} (λ (b : Bool). if b then 1 else 0) w))
  | inr w ↦ elim (Bool-cases (ltb c.request_nbr 10)) [
    | inl more ↦
        let (call, q) = ask-more c (ltb→lt _ _ more) in
        inl (_, ask xs c (record c { waiting = true }) ys call e w q)
    | inr over ↦
        elim (asks_or_IsDone s (xs ++ c ∷ []) ys (e ∙ sym (append_assoc xs (c ∷ []) ys)) h.1
          (omega (arith, z, ap {B = ℕ} (λ (b : Bool). if b then 1 else 0) w))) [
            | inl go ↦ inl go
            | inr done ↦
                let ten : c.request_nbr ≡ 10 = omega (arith, h.0.0, ltb→le _ _ over) in
                inr ((ten, w, h.0.1 ∙ ap (λ n. replicate n world) ten), done)
          ]
  ]
]

-- A client waits for a message that is there.
abbrev Waits : Frame → List Client → Type 0
Waits name cs =
    (xs : List Client) × (c : Client) × (ys : List Client) × (cs ≡ xs ++ c ∷ ys)
    × (c.waiting ≡ true)
    × (c.name ≡ name)

behind-Waits : (name : Frame) (c : Client) (cs : List Client) → Waits name cs → Waits name (c ∷ cs)
behind-Waits name c cs (xs, d, ys, e, w, n) = (c ∷ xs, d, ys, ap (◌∷◌ c) e, w, n)

weigh-Waits :
    (name : Frame) (cs : List Client) → 1 ≤ weigh (of_client (once name)) cs → Waits name cs
weigh-Waits name [] h = absurd (omega (arith, h))
weigh-Waits name (c ∷ cs) h = elim (Bool-cases c.waiting) [
  | inl w ↦ elim (Bool-cases (streq name c.name)) [
    | inl same ↦ ([], c, cs, refl, w, sym (streq→eq _ _ same))
    | inr other ↦
        let k : 1 ≤ 0 + weigh (of_client (once name)) cs = rw (w, other) at h in
        behind-Waits name c cs (weigh-Waits name cs (omega (arith, k)))
  ]
  | inr w ↦
      let k : 1 ≤ 0 + weigh (of_client (once name)) cs = rw w at h in
      behind-Waits name c cs (weigh-Waits name cs (omega (arith, k)))
]

mail_of :
    (m : Frame × Msg) → IsMail m → (name : Frame) × (body : Frame) × (m ≡ (name, [] ∷ body ∷ []))
mail_of (name, [] ∷ body ∷ []) h = (name, body, refl)
mail_of (name, []) h = absurd h
mail_of (name, [] ∷ []) h = absurd h
mail_of (name, [] ∷ f ∷ g ∷ m) h = absurd h
mail_of (name, (c ∷ f) ∷ m) h = absurd h

reply_of :
    (m : Frame × Msg) → IsReply m → (name : Frame) × (body : Frame) × (m ≡ (name, [] ∷ body ∷ []))
reply_of (name, [] ∷ body ∷ []) h = (name, body, refl)
reply_of (name, []) h = absurd h
reply_of (name, [] ∷ []) h = absurd h
reply_of (name, [] ∷ f ∷ g ∷ m) h = absurd h
reply_of (name, (c ∷ f) ∷ m) h = absurd h

pub goes_on :
    (names : List Frame) (s : System)
    → Inv names s
    → ((t : System) × Step s t) ⊎ All IsDone s.clients
goes_on names s v =
    go s.traffic.requests s.traffic.requested s.traffic.replies s.traffic.replied refl refl refl
      refl
  where
    go :
        (qs ps rs ds : List (Frame × Msg))
        → s.traffic.requests ≡ qs
        → s.traffic.requested ≡ ps
        → s.traffic.replies ≡ rs
        → s.traffic.replied ≡ ds
        → ((t : System) × Step s t) ⊎ All IsDone s.clients
    go qs ps rs (d ∷ ds) e1 e2 e3 e4 =
        let (name, body, q) = reply_of d (subst (All IsReply) e4 v.replied).0 in
        let (xs, c, ys, e, w, n) = weigh-Waits name s.clients (
          omega (
            arith,
            v.accounts (once name),
            ap (weigh (of_mail (once name))) (e4 ∙ ap (λ m. m ∷ ds) q),
            ap {B = ℕ} (λ (b : Bool). if b then 1 else 0) (streq_self name),
          )) in
        inl (
          _,
          hear xs c ys [] body ds e w
              (e4 ∙ ap (λ m. m ∷ ds) (q ∙ ap (λ k. (k, [] ∷ body ∷ [])) (sym n))),
        )
    go qs ps (r ∷ rs) [] e1 e2 e3 e4 = inl (_, turn _ _ (inr refl) (turn_reply s.traffic r rs e3))
    go qs (m ∷ ps) [] [] e1 e2 e3 e4 =
        let (name, body, q) = mail_of m (subst (All IsMail) e2 v.requested).0 in
        inl (_, serve [] name body ps [] (e2 ∙ ap (λ m. m ∷ ps) q))
    go (q ∷ qs) [] [] [] e1 e2 e3 e4 = inl (_, turn _ _ (inl refl) (turn_request s.traffic q qs e1))
    go [] [] [] [] e1 e2 e3 e4 = asks_or_IsDone s [] s.clients refl v.clients (
        omega (
          arith,
          v.accounts (λ _. 1),
          ap (weigh (of_mail (λ _. 1))) e1,
          ap (weigh (of_mail (λ _. 1))) e2,
          ap (weigh (of_mail (λ _. 1))) e3,
          ap (weigh (of_mail (λ _. 1))) e4,
        ))
