-- ===== src/Lpp/Tests.antt =====
-- The programs of src/lpp at concrete inputs.
use zmq_test.Common.{◌≡◌, refl, some, [], ◌∷◌, ◌++◌, false, arith}
use zmq_test.Base.Numbers.Decimal.{decimal, decimals}
use zmq_test.Lpp.Client.{
  Client, Round, connected, expired, readable, round, run, sent, start, waiting,
}
use zmq_test.Lpp.Client.Retries.{IsPatient, given_up, run-IsPatient, run-expired, tries}
use zmq_test.Lpp.Server.{Server, cycle, running, slept}
use zmq_test.Lpp.Server.{sent as echoed}
use zmq_test.Lpp.Exchange.{exchange_lem}

abbrev silent : Round
silent = record { poll = expired; interrupted = false }

abbrev replied : Round
replied = record { poll = readable (some (b'1' ∷ [])); interrupted = false }

run-IsPatient_example :
    IsPatient decimals (run decimals (start decimals false) (silent ∷ replied ∷ silent ∷ []))
run-IsPatient_example = run-IsPatient decimals false (silent ∷ replied ∷ silent ∷ [])

abbrev client : Client
client = record {
  phase = waiting;
  sequence = 7;
  retries_left = 3;
  trace = connected ∷ sent (b'7' ∷ []) ∷ [];
}

run-expired_example :
    run decimals client (silent ∷ silent ∷ silent ∷ [])
    ≡ given_up decimals client (tries (decimal 10 7) 2)
run-expired_example =
    run-expired decimals 2 client (silent ∷ silent ∷ silent ∷ []) (refl, (refl, (refl, tt))) refl
      refl refl

abbrev server : Server
server = record { cycles = 5; trace = [] }

exchange_lem_example :
    (cycle server (decimal 10 7) 1 0
      ≡ running (record { cycles = 6; trace = slept 2 ∷ slept 1 ∷ echoed (decimal 10 7) ∷ [] }))
    × (round decimals client (record { poll = readable (some (decimal 10 7)); interrupted = false })
        ≡ record client {
          retries_left = 3;
          sequence = 8;
          trace = client.trace ++ sent (decimal 10 8) ∷ [];
        })
exchange_lem_example =
    exchange_lem decimals client server 1 0 refl (omega arith) (λ e. omega (arith, e))
