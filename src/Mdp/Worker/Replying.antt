-- ===== src/Mdp/Worker/Replying.antt =====
-- A worker of this library cannot reply: nothing ever sets `reply_to`.
use zmq_test.Common.{
  ℕ, ◌+◌, ◌≡◌, refl, ap, ◌∙◌, inl, inr, ◌⊎◌, Option, none, some, Bool, true, List, [], ◌∷◌,
  Bool-cases,
}
use zmq_test.Czmq.{Msg, Zmsg}
use zmq_test.Mdp.Worker.{
  Session, Poll, failed, expired, readable, Outcome, waiting, no_result, aborted, new, recv,
  recv_loop, set_heartbeat, set_reconnect, mdpw_worker, mdpw_ready, connected, sent,
}

-- What a program can do with a session.
pub data Use : Type 0 where
  heartbeat : ℕ → Use
  reconnect : ℕ → Use
  receive : Option Msg → List Poll → Use

module _ (C : Zmsg) (clock : ℕ → ℕ) where
  -- A call that does not come back is the end, and so is a failed assertion.
  unfoldable pub use_all : Session → List Use → Option Session
  use_all self [] = some self
  use_all self (heartbeat n ∷ uses) = use_all (set_heartbeat self n) uses
  use_all self (reconnect n ∷ uses) = use_all (set_reconnect self n) uses
  use_all self (receive reply polls ∷ uses) = elim (recv C clock self reply polls) [
    | waiting next ↦ none
    | no_result next ↦ use_all next uses
    | aborted ↦ none
  ]

  recv_loop-same :
      (self next : Session) (polls : List Poll)
      → recv_loop C clock self polls ≡ no_result next
      → next ≡ self
  unfolding recv_loop
  recv_loop-same self next [] e = cc
  recv_loop-same self next (failed ∷ polls) e = cc
  recv_loop-same self next (expired ∷ polls) e = recv_loop-same self next polls e
  recv_loop-same self next (readable msg ∷ polls) e = recv_loop-same self next polls e

  recv-aborts :
      (self : Session) (reply : Msg) (polls : List Poll)
      → self.reply_to ≡ none
      → recv C clock self (some reply) polls ≡ aborted
  unfolding recv
  recv-aborts self reply polls e = rw e refl

  recv-reply_to :
      (self next : Session) (reply : Option Msg) (polls : List Poll)
      → self.reply_to ≡ none
      → recv C clock self reply polls ≡ no_result next
      → next.reply_to ≡ none
  unfolding recv
  recv-reply_to self next (some reply) polls e h = cc (recv-aborts self reply polls e)
  recv-reply_to self next none polls e h = elim (Bool-cases self.expect_reply) [
    | inl p ↦ cc (rw p at h)
    | inr p ↦
        ap (λ s. s.reply_to)
          (recv_loop-same (record self { expect_reply = true }) next polls (rw p at h))
        ∙ e
  ]

  set-reply_to :
      (self : Session) (n : ℕ)
      → ((set_heartbeat self n).reply_to ≡ self.reply_to)
        × ((set_reconnect self n).reply_to ≡ self.reply_to)
  unfolding set_heartbeat set_reconnect
  set-reply_to self n = (refl, refl)

  use_all-reply_to :
      (self last : Session) (uses : List Use)
      → self.reply_to ≡ none
      → use_all self uses ≡ some last
      → last.reply_to ≡ none
  unfolding use_all
  use_all-reply_to self last [] e h = cc
  use_all-reply_to self last (heartbeat n ∷ uses) e h =
      use_all-reply_to (set_heartbeat self n) last uses ((set-reply_to self n).0 ∙ e) h
  use_all-reply_to self last (reconnect n ∷ uses) e h =
      use_all-reply_to (set_reconnect self n) last uses ((set-reply_to self n).1 ∙ e) h
  use_all-reply_to self last (receive reply polls ∷ uses) e h =
      elim (Outcome-cases (recv C clock self reply polls)) [
        | inl (next, w) ↦ cc (rw (w, use_all) at h)
        | inr (inl (next, w)) ↦
            use_all-reply_to next last uses (recv-reply_to self next reply polls e w)
              (rw (w, use_all) at h)
        | inr (inr w) ↦ cc (rw (w, use_all) at h)
      ]
    where
      Outcome-cases :
          (o : Outcome)
          → ((s : Session) × (o ≡ waiting s))
            ⊎ (((s : Session) × (o ≡ no_result s)) ⊎ (o ≡ aborted))
      Outcome-cases (waiting s) = inl (s, refl)
      Outcome-cases (no_result s) = inr (inl (s, refl))
      Outcome-cases aborted = inr (inr refl)

  -- Whatever a program did with a session from `mdwrk_new` on, a call of `mdwrk_recv` that hands
  -- over a reply fails its assertion that there is an address for it.
  pub reply_aborts :
      (broker service : List ℕ) (verbose : Bool) (uses : List Use) (self : Session) (reply : Msg)
      (polls : List Poll)
      → use_all (new C clock broker service verbose) uses ≡ some self
      → recv C clock self (some reply) polls ≡ aborted
  unfolding new
  reply_aborts broker service verbose uses self reply polls h =
      recv-aborts self reply polls (use_all-reply_to _ self uses refl h)

  -- A new session has connected once and told the broker its service in a message of the four
  -- frames of the protocol, and its first heartbeat is due 2500 milliseconds after its only look at
  -- the clock.
  pub new_lem :
      (broker service : List ℕ) (verbose : Bool)
      → ((new C clock broker service verbose).trace
          ≡ connected broker ∷ sent ([] ∷ mdpw_worker ∷ mdpw_ready ∷ service ∷ []) ∷ [])
        × ((new C clock broker service verbose).heartbeat_at ≡ clock 0 + 2500)
        × ((new C clock broker service verbose).liveness ≡ 3)
        × ((new C clock broker service verbose).reads ≡ 1)
  unfolding new
  new_lem broker service verbose =
      let message : C.push (C.push (C.push (C.push [] service) mdpw_ready) mdpw_worker) []
          ≡ [] ∷ mdpw_worker ∷ mdpw_ready ∷ service ∷ [] =
        C.push_lem _ _
        ∙ ap (λ m. [] ∷ m)
            (C.push_lem _ _
              ∙ ap (λ m. mdpw_worker ∷ m)
                  (C.push_lem _ _ ∙ ap (λ m. mdpw_ready ∷ m) (C.push_lem [] service))) in
      (ap (λ m. connected broker ∷ sent m ∷ []) message, refl, refl, refl)

  recv_loop-cases :
      (self : Session) (polls : List Poll)
      → (recv_loop C clock self polls ≡ waiting self)
        ⊎ (recv_loop C clock self polls ≡ no_result self)
  unfolding recv_loop
  recv_loop-cases self [] = inl refl
  recv_loop-cases self (failed ∷ polls) = inr refl
  recv_loop-cases self (expired ∷ polls) = recv_loop-cases self polls
  recv_loop-cases self (readable msg ∷ polls) = recv_loop-cases self polls

  -- The first call for a new session gives no request, whatever comes, and sends nothing.
  pub first_recv :
      (broker service : List ℕ) (verbose : Bool) (polls : List Poll)
      → (recv C clock (new C clock broker service verbose) none polls
          ≡ waiting (record (new C clock broker service verbose) { expect_reply = true }))
        ⊎ (recv C clock (new C clock broker service verbose) none polls
            ≡ no_result (record (new C clock broker service verbose) { expect_reply = true }))
  unfolding recv new
  first_recv broker service verbose polls = recv_loop-cases _ polls
