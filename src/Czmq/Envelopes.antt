-- ===== src/Czmq/Envelopes.antt =====
-- What the laws of `zmsg_t` say of a whole message.
use zmq_test.Common.{◌≡◌, ◌≢◌, refl, some, [], ◌∷◌}
use zmq_test.Czmq.Frames.{Frame, Msg, Zmsg}

module _ (C : Zmsg) where
  -- A message with a frame has an envelope to take off.
  pub unwrap-some : (m : Msg) → m ≢ [] → (f : Frame) × (r : Msg) × (C.unwrap m ≡ (some f, r))
  unwrap-some [] h = absurd (h refl)
  unwrap-some (f ∷ []) h = (f, [], C.unwrap-one f)
  unwrap-some (f ∷ [] ∷ m) h = (f, m, C.unwrap-empty f m)
  unwrap-some (f ∷ (c ∷ g) ∷ m) h = (f, (c ∷ g) ∷ m, C.unwrap-frame f c g m)
