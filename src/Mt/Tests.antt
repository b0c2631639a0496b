-- ===== src/Mt/Tests.antt =====
-- The threads of src/mt/relay.c, three calls after the start.
use zmq_test.Common.{[], ◌∷◌}
use zmq_test.Mt.Relay.{
  s_recv, pthread_create, debug_log, test_successful, close, System, start, routine, step2,
}

abbrev bound_main : System
bound_main = record start {
  in_main = pthread_create step2 ∷ s_recv 3 ∷ close ∷ debug_log test_successful ∷ [];
  bound = 3 ∷ [];
}

abbrev created : System
created = record bound_main {
  in_main = s_recv 3 ∷ close ∷ debug_log test_successful ∷ [];
  in_step2 = routine step2;
}
