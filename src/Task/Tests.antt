-- ===== src/Task/Tests.antt =====
-- The pipeline at its first steps.
use zmq_test.Common.{ℕ, []}
use zmq_test.Base.Numbers.Decimal.{decimals}
use zmq_test.Task.Ventilator.{signal}
use zmq_test.Task.Sink.{idle, on_message}
use zmq_test.Task.Pipeline.{System, start}
use zmq_test.Common.Steps.{Steps}

abbrev draw : ℕ → ℕ
draw i = 1_000_000

-- The sink has taken the start signal, at time 5.
abbrev signalled : System
signalled = record (start decimals draw) {
  results = [];
  sink = (on_message idle signal 5).0;
  controls = (on_message idle signal 5).1;
}
