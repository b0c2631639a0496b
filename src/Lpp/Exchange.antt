-- ===== src/Lpp/Exchange.antt =====
-- The client and the server of src/lpp together.
use zmq_test.Common.{ℕ, ◌+◌, ◌^◌, ◌<◌, ◌≡◌, ◌≢◌, some, false, [], ◌∷◌, ◌++◌, arith}
use zmq_test.Base.Numbers.{Decimals}
use zmq_test.Lpp.Client.{Client, waiting, readable, round}
use zmq_test.Lpp.Server.Echo.{overloaded, cycle-echo}
use zmq_test.Lpp.Client.Retries.{round-reply}
use zmq_test.Lpp.Server.{Server, running, cycle, slept}
use zmq_test.Lpp.Client.{sent as asked}
use zmq_test.Lpp.Server.{sent as echoed}

module _ (D : Decimals) where
  -- The server, if the draw that could end it is not 0, sends the number of a request back
  -- whole, and once, after a pause of a second, with one of two seconds before it if this is the
  -- server's fourth cycle or a later one and its other draw is 0. A client that waits for that number, where the next one
  -- has fewer than ten digits, and is not interrupted takes it for its reply: it has all three tries
  -- again and sends the next number.
  pub exchange_lem :
      (c : Client) (s : Server) (crash overload : ℕ)
      → c.phase ≡ waiting
      → c.sequence + 1 < 10 ^ 9
      → crash ≢ 0
      → (cycle s (D.print c.sequence) crash overload
          ≡ running (record {
            cycles = s.cycles + 1;
            trace =
                (s.trace ++ overloaded s overload) ++ slept 1 ∷ echoed (D.print c.sequence) ∷ [];
          }))
        × (round D c (record { poll = readable (some (D.print c.sequence)); interrupted = false })
            ≡ record c {
              retries_left = 3;
              sequence = c.sequence + 1;
              trace = c.trace ++ asked (D.print (c.sequence + 1)) ∷ [];
            })
  exchange_lem c s crash overload w small ok =
      let fits : c.sequence < 2 ^ 31 = omega arith in
      (
        cycle-echo s (D.print c.sequence) crash overload ok (D.print-text c.sequence fits)
            (omega (arith, D.length-print c.sequence fits)),
        round-reply D c w fits,
      )
