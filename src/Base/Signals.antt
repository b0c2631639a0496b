-- ===== src/Base/Signals.antt =====
-- `S_INTERRUPTED`, `s_signal_handler` and `s_catch_signals` of src/base.c. The numbers of the two
-- signals are parameters.
use zmq_test.Common.{
  ℕ, ◌≡◌, refl, Option, none, some, Bool, true, false, ◌||◌, or_true, List, [], ◌∷◌, All, ◌==◌,
  if◌then◌else◌,
}

-- `handled n` says whether the action of signal n is the handler; every other action is left to
-- end the program.
pub record Process : Type 0 where
  pub interrupted : Bool
  pub handled : ℕ → Bool

pub s_signal_handler : ℕ → Process → Process
s_signal_handler signal_value p = record p { interrupted = true }

-- A signal, and several one after the other; `none` if the program is ended.
pub signal : ℕ → Process → Option Process
unfolding s_signal_handler
signal n p = if p.handled n then some (s_signal_handler n p) else none

infixl 5 ◌>>=◌
abbrev ◌>>=◌ : Option Process → (Process → Option Process) → Option Process
none >>= f = none
some p >>= f = f p

unfoldable pub signals : List ℕ → Process → Option Process
unfolding signal
signals [] p = some p
signals (n ∷ ns) p = signal n p >>= signals ns

module _ (sigint sigterm : ℕ) where
  unfoldable pub s_catch_signals : Process → Process
  s_catch_signals p = record p {
    handled = λ n. if (n == sigint) || (n == sigterm) then true else p.handled n;
  }

  -- What a terminal and `kill` send.
  abbrev pub IsCaught : ℕ → Type 0
  IsCaught n = ((n == sigint) || (n == sigterm)) ≡ true

abbrev pub any_signal : List ℕ → Bool
any_signal [] = false
any_signal (n ∷ ns) = true

signal-handled :
    (n : ℕ) (p : Process) → p.handled n ≡ true → signal n p ≡ some (record p { interrupted = true })
unfolding signal s_signal_handler
signal-handled n p h = rw h refl

false_or : (b : Bool) → (b || false) ≡ b
false_or true = refl
false_or false = refl

-- Signals that are handled set `S_INTERRUPTED` and do nothing else.
pub signals-handled :
    (ns : List ℕ) (p : Process)
    → All (λ n. p.handled n ≡ true) ns
    → signals ns p ≡ some (record p { interrupted = p.interrupted || any_signal ns })
unfolding signals
signals-handled [] p h = rw (false_or p.interrupted) refl
signals-handled (n ∷ ns) p h =
    rw (signal-handled n p h.0, or_true p.interrupted)
      (signals-handled ns (record p { interrupted = true }) h.1)

-- After `s_catch_signals` the two signals are handled.
pub s_catch_signals-handled :
    (sigint sigterm n : ℕ) (p : Process)
    → IsCaught sigint sigterm n
    → (s_catch_signals sigint sigterm p).handled n ≡ true
unfolding s_catch_signals
s_catch_signals-handled sigint sigterm n p h = rw h refl
