-- ===== src/Lpp/Server/Echo.antt =====
-- What the server sends back.
use zmq_test.Common.{
  ℕ, ◌+◌, ◌<◌, ◌≡◌, ◌≢◌, refl, append-nil, if◌then◌else◌, inl, inr, false, ◌&&◌, List, [], ◌∷◌,
  ◌++◌, arith, ltb, ◌==◌, Bool-cases, length,
}
use zmq_test.Base.Strings.{received-text, IsText}
use zmq_test.Lpp.Server.{Server, Effect, running, cycle, echo, slept, sent}

-- The pause of a cycle that simulates too much to do.
abbrev pub overloaded : Server → ℕ → List Effect
overloaded s overload = if ltb 3 (s.cycles + 1) && overload == 0 then slept 2 ∷ [] else []

-- A cycle that does not fail.
pub cycle-echo :
    (s : Server) (request : List ℕ) (crash overload : ℕ)
    → crash ≢ 0
    → IsText request
    → length request < 32
    → cycle s request crash overload
      ≡ running (record {
        cycles = s.cycles + 1;
        trace = (s.trace ++ overloaded s overload) ++ slept 1 ∷ sent request ∷ [];
      })
unfolding cycle echo
cycle-echo s request crash overload ok text fits =
    let up : (ltb 3 (s.cycles + 1) && crash == 0) ≡ false = ground arith in
    elim (Bool-cases (ltb 3 (s.cycles + 1) && overload == 0)) [
      | inl e ↦ rw (up, e, received-text 32 request fits text) refl
      | inr e ↦ rw (up, e, received-text 32 request fits text, append-nil s.trace) refl
    ]
