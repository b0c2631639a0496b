-- ===== src/Envelope/Tests.antt =====
-- The programs of src/envelope over two rounds, with filters that compare bytes.
use zmq_test.Common.{◌≡◌, refl, Bool, true, false, ◌&&◌, [], ◌∷◌, ◌++◌, ◌==◌, replicate, arith}
use zmq_test.Czmq.{Frame, Msg}
use zmq_test.Base.Transport.Delivery.{joined}
use zmq_test.Envelope.{Arrays, Filters, publisher, subscriber, delivered}
use zmq_test.Envelope.Filtering.{lines, subscriber-publisher}

starts_with : Frame → Frame → Bool
starts_with [] g = true
starts_with (c ∷ f) [] = false
starts_with (c ∷ f) (d ∷ g) = (c == d) && starts_with f g

starts_with-append : (f r : Frame) → starts_with f (f ++ r) ≡ true
unfolding starts_with
starts_with-append [] r = refl
starts_with-append (c ∷ f) r =
    let same : (c == c) ≡ true = ground arith in rw same (starts_with-append f r)

first_matches : Frame → Msg → Bool
first_matches f [] = false
first_matches f (g ∷ m) = starts_with f g

by_bytes : Filters
unfolding first_matches starts_with
by_bytes = record {
  matches = first_matches;
  matches-prefix = λ f r m. starts_with-append f r;
  matches-other = λ c d f r m h. let other : (c == d) ≡ false = ground arith in rw other refl;
}

abbrev arrays : Arrays
arrays = record { key = replicate 256 0; address = replicate 256 1; content = replicate 300 2 }

subscriber-publisher_example :
    subscriber arrays (delivered by_bytes (joined [] (publisher 2))) ≡ lines 2
subscriber-publisher_example =
    subscriber-publisher by_bytes 2 arrays (omega arith, omega arith, omega arith)
