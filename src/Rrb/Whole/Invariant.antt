-- ===== src/Rrb/Whole/Invariant.antt =====
-- What holds of the programs of src/rrb while they run: each client that waits has one message on
-- its way, and has printed a reply for each request before.
use zmq_test.Common.{
  ℕ, ◌+◌, ◌≡◌, refl, sym, ap, ◌∙◌, subst, some, Bool, true, false, List, [], ◌∷◌, ◌++◌, map, All,
  All-append, All-append_left, All-append_right, if◌then◌else◌, arith,
}
use zmq_test.Common.Weigh.{weigh, weigh-append, weigh-middle, All-middle, All-insert, map-middle}
use zmq_test.Czmq.{Frame, Msg}
use zmq_test.Base.Transport.{Call, s_send}
use zmq_test.Rrb.Broker.{Poll}
use zmq_test.Rrb.Broker.Passing.{Traffic}
use zmq_test.Rrb.Client.{Client}
use zmq_test.Rrb.Client as Client
use zmq_test.Rrb.Client.Rounds.{IsClient, world, ask-asks, hear-IsClient, hear-idle}
use zmq_test.Rrb.Worker as Worker
use zmq_test.Rrb.Whole.{System, replies, Step, ask, turn, serve, hear}
use zmq_test.Rrb.Whole.Relay.{Hop, Turned, turn-Turned}

abbrev pub IsMail : Frame × Msg → Type 0
IsMail (name, [] ∷ body ∷ []) = Unit
IsMail _ = ⊥

abbrev pub IsReply : Frame × Msg → Type 0
IsReply (name, [] ∷ body ∷ []) = body ≡ world
IsReply _ = ⊥

module _ (weight : Frame → ℕ) where
  abbrev pub of_mail : Frame × Msg → ℕ
  of_mail (name, m) = weight name

  abbrev pub of_client : Client → ℕ
  of_client c = if c.waiting then weight c.name else 0

  abbrev pub on_the_way : Traffic → ℕ
  on_the_way t =
      weigh of_mail t.requests
      + weigh of_mail t.requested
      + weigh of_mail t.replies
      + weigh of_mail t.replied

pub record Inv (started : List Frame) (s : System) : Type 0 where
  pub clients : All IsClient s.clients
  pub names : map (λ c. c.name) s.clients ≡ started
  pub requests : All IsMail s.traffic.requests
  pub requested : All IsMail s.traffic.requested
  pub replies : All IsReply s.traffic.replies
  pub replied : All IsReply s.traffic.replied
  pub accounts :
      (weight : Frame → ℕ) → on_the_way weight s.traffic ≡ weigh (of_client weight) s.clients

-- What a worker sends, whatever it has read.
pub serve-reply :
    (name string body : Frame)
    → replies name (Worker.serve string (some body)).1 ≡ (name, [] ∷ world ∷ []) ∷ []
unfolding Worker.serve s_send
serve-reply name string body = refl

module _ (names : List Frame) (s : System) (v : Inv names s) where
  ask-Inv :
      (xs : List Client) (c d : Client) (ys : List Client) (call : Call)
      → s.clients ≡ xs ++ c ∷ ys
      → c.waiting ≡ false
      → Client.ask c ≡ some (d, call)
      → Inv names (record {
        clients = xs ++ d ∷ ys;
        traffic = record s.traffic {
          requests = s.traffic.requests ++ (c.name, [] ∷ call.bytes ∷ []) ∷ [];
        };
      })
  ask-Inv xs c d ys call e w q =
      let (more, new) = ask-asks c d call q in
      let held = All-middle IsClient xs ys c (subst (All IsClient) e v.clients) in
      rw new (record {
        clients = All-insert IsClient xs ys _ (omega (arith, more), held.0.1, held.0.2) held.1;
        names =
            map-middle (λ (c : Client). c.name) xs ys _ c refl
            ∙ sym (ap (map (λ c. c.name)) e)
            ∙ v.names;
        requests = All-append IsMail s.traffic.requests _ v.requests (tt, tt);
        requested = v.requested;
        replies = v.replies;
        replied = v.replied;
        accounts = λ weight. omega (
          arith,
          v.accounts weight,
          ap (weigh (of_client weight)) e,
          ap (λ (b : Bool). if b then weight c.name else 0) w,
          weigh-middle (of_client weight) xs ys c,
          weigh-middle (of_client weight) xs ys (record c { waiting = true }),
          weigh-append (of_mail weight) s.traffic.requests ((c.name, [] ∷ call.bytes ∷ []) ∷ []),
        );
      })

  weigh-Hop :
      (weight : Frame → ℕ) (xs ys xs' ys' : List (Frame × Msg)) (n : ℕ)
      → Hop xs ys xs' ys' n
      → weigh (of_mail weight) xs + weigh (of_mail weight) ys
        ≡ weigh (of_mail weight) xs' + weigh (of_mail weight) ys'
  weigh-Hop weight xs ys xs' ys' n h = omega (
    arith,
    ap (weigh (of_mail weight)) h.from,
    ap (weigh (of_mail weight)) h.to,
    weigh-append (of_mail weight) h.moved xs',
    weigh-append (of_mail weight) ys h.moved,
  )

  All-Hop :
      (P : Frame × Msg → Type 0) (xs ys xs' ys' : List (Frame × Msg)) (n : ℕ)
      → Hop xs ys xs' ys' n
      → All P xs
      → All P ys
      → All P xs' × All P ys'
  All-Hop P xs ys xs' ys' n h a b =
      let a' = subst (All P) h.from a in
      (
        All-append_right P h.moved xs' a',
        rw h.to (All-append P ys h.moved b (All-append_left P h.moved xs' a')),
      )

  turn-Inv : (p : Poll) (t : Traffic) → Turned s.traffic t p → Inv names (record s { traffic = t })
  turn-Inv p t h =
      let qs = All-Hop IsMail _ _ _ _ _ h.request v.requests v.requested in
      let rs = All-Hop IsReply _ _ _ _ _ h.reply v.replies v.replied in
      record {
        clients = v.clients;
        names = v.names;
        requests = qs.0;
        requested = qs.1;
        replies = rs.0;
        replied = rs.1;
        accounts = λ weight. omega (
          arith,
          v.accounts weight,
          weigh-Hop weight _ _ _ _ _ h.request,
          weigh-Hop weight _ _ _ _ _ h.reply,
        );
      }

  serve-Inv :
      (xs : List (Frame × Msg)) (name body : Frame) (ys : List (Frame × Msg)) (string : List ℕ)
      → s.traffic.requested ≡ xs ++ (name, [] ∷ body ∷ []) ∷ ys
      → Inv names (record s {
        traffic = record s.traffic {
          requested = xs ++ ys;
          replies = s.traffic.replies ++ replies name (Worker.serve string (some body)).1;
        };
      })
  serve-Inv xs name body ys string e =
      let m : Frame × Msg = (name, [] ∷ body ∷ []) in
      let r : Frame × Msg = (name, [] ∷ world ∷ []) in
      rw (serve-reply name string body) (record {
        clients = v.clients;
        names = v.names;
        requests = v.requests;
        requested = (All-middle IsMail xs ys m (subst (All IsMail) e v.requested)).1;
        replies = All-append IsReply s.traffic.replies (r ∷ []) v.replies (refl, tt);
        replied = v.replied;
        accounts = λ weight. omega (
          arith,
          v.accounts weight,
          ap (weigh (of_mail weight)) e,
          weigh-middle (of_mail weight) xs ys m,
          weigh-append (of_mail weight) s.traffic.replies (r ∷ []),
        );
      })

  hear-Inv :
      (xs : List Client) (c : Client) (ys : List Client) (ms : List (Frame × Msg)) (body : Frame)
      (ns : List (Frame × Msg))
      → s.clients ≡ xs ++ c ∷ ys
      → c.waiting ≡ true
      → s.traffic.replied ≡ ms ++ (c.name, [] ∷ body ∷ []) ∷ ns
      → Inv names (record {
        clients = xs ++ Client.hear c (some body) ∷ ys;
        traffic = record s.traffic { replied = ms ++ ns };
      })
  hear-Inv xs c ys ms body ns e w q =
      let m : Frame × Msg = (c.name, [] ∷ body ∷ []) in
      let held = All-middle IsClient xs ys c (subst (All IsClient) e v.clients) in
      let mail = All-middle IsReply ms ns m (subst (All IsReply) q v.replied) in
      let idle = hear-idle c (some body) in
      let heard : IsClient (Client.hear c (some body)) = rw mail.0 (hear-IsClient c w held.0) in
      record {
        clients = All-insert IsClient xs ys _ heard held.1;
        names =
            map-middle (λ (c : Client). c.name) xs ys _ c idle.0
            ∙ sym (ap (map (λ c. c.name)) e)
            ∙ v.names;
        requests = v.requests;
        requested = v.requested;
        replies = v.replies;
        replied = mail.1;
        accounts = λ weight. omega (
          arith,
          v.accounts weight,
          ap (weigh (of_client weight)) e,
          ap (weigh (of_mail weight)) q,
          ap (λ (b : Bool). if b then weight c.name else 0) w,
          ap (λ (b : Bool). if b then weight (Client.hear c (some body)).name else 0) idle.1,
          weigh-middle (of_client weight) xs ys c,
          weigh-middle (of_client weight) xs ys (Client.hear c (some body)),
          weigh-middle (of_mail weight) ms ns m,
        );
      }

pub Step-Inv : (names : List Frame) (s t : System) → Step s t → Inv names s → Inv names t
Step-Inv names s t (ask xs c d ys call e w q) v = ask-Inv names s v xs c d ys call e w q
Step-Inv names s t (turn p u some_event e) v = turn-Inv names s v p u (turn-Turned s.traffic u p e)
Step-Inv names s t (serve xs name body ys string e) v = serve-Inv names s v xs name body ys string e
Step-Inv names s t (hear xs c ys ms body ns e w q) v = hear-Inv names s v xs c ys ms body ns e w q
