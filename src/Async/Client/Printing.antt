-- ===== src/Async/Client/Printing.antt =====
-- What a client of src/async/cs.c prints.
use zmq_test.Common.{
  ℕ, zero, suc, ◌+◌, ◌≡◌, refl, sym, ap, ◌∙◌, Option, none, some, List, [], ◌∷◌, ◌++◌, replicate,
  append_assoc, append-nil,
}
use zmq_test.Czmq.{Frame, Msg, Zmsg}
use zmq_test.Base.Numbers.{Decimals}
use zmq_test.Async.Client.{Client, request, print, ◌>>=◌, tick, ticks, cycle}

-- What is there of a poll, before what comes later.
abbrev pub before : Option Msg → List Msg → List Msg
before none ms = ms
before (some m) ms = m ∷ ms

-- What n polls bring.
abbrev pub arrivals : (ℕ → Option Msg) → ℕ → ℕ → List Msg
arrivals env zero centitick = []
arrivals env (suc n) centitick = before (env centitick) (arrivals env n (centitick + 1))

abbrev pub printing : Client → List Frame → Client
printing self fs = record self { printed = self.printed ++ fs }

printing-nil : (self : Client) → self ≡ printing self []
printing-nil self i = record {
  request_nbr = self.request_nbr;
  printed = sym (append-nil self.printed) i;
  sent = self.sent;
}

bind-eq :
    (r : Option Client) (f g : Client → Option Client)
    → ((c : Client) → f c ≡ g c)
    → (r >>= f) ≡ (r >>= g)
bind-eq none f g h = refl
bind-eq (some c) f g h = h c

module _ (C : Zmsg) where
  abbrev print_all : Client → List Msg → Option Client
  print_all self [] = some self
  print_all self (m ∷ ms) = print self (C.last m) >>= λ next. print_all next ms

  ticks-print_all :
      (env : ℕ → Option Msg) (left centitick : ℕ) (self : Client)
      → ticks C env left centitick self ≡ print_all self (arrivals env left centitick)
  unfolding ticks tick
  ticks-print_all env zero centitick self = refl
  ticks-print_all env (suc left) centitick self =
      poll (env centitick) self (λ next. ticks-print_all env left (centitick + 1) next)
    where
      poll :
          (o : Option Msg) (c : Client)
          → ((next : Client)
              → ticks C env left (centitick + 1) next
                ≡ print_all next (arrivals env left (centitick + 1)))
          → (tick C c o >>= λ next. ticks C env left (centitick + 1) next)
            ≡ print_all c (before o (arrivals env left (centitick + 1)))
      poll none c ih = ih c
      poll (some m) c ih = bind-eq (print c (C.last m)) _ _ ih

  print_all-replicate :
      (k : ℕ) (self : Client) (f : Frame)
      → print_all self (replicate k (f ∷ [])) ≡ some (printing self (replicate k f))
  unfolding print
  print_all-replicate zero self f = ap some (printing-nil self)
  print_all-replicate (suc k) self f = rw (C.last-append [] f) (
      print_all-replicate k (printing self (f ∷ [])) f
      ∙ ap (λ fs. some (record self { printed = fs }))
          (append_assoc self.printed (f ∷ []) (replicate k f)))

  -- A cycle that gets k times a message of this one frame prints it k times, and sends the next
  -- request.
  pub cycle-replicate :
      (D : Decimals) (env : ℕ → Option Msg) (self : Client) (k : ℕ) (f : Frame)
      → arrivals env 100 0 ≡ replicate k (f ∷ [])
      → cycle C D env self
        ≡ some (record {
          request_nbr = self.request_nbr + 1;
          printed = self.printed ++ replicate k f;
          sent = self.sent ++ (request D (self.request_nbr + 1) ∷ []) ∷ [];
        })
  unfolding cycle
  cycle-replicate D env self k f e =
      rw (ticks-print_all env 100 0 self, e, print_all-replicate k self f) refl
