-- ===== src/Czmq/Frames.antt =====
-- `zmsg_t` and `zframe_t`. A frame is its bytes and a message its frames, first to last.
use zmq_test.Common.{ℕ, ◌≡◌, Option, none, some, List, [], ◌∷◌, ◌++◌, length}

abbrev pub Frame : Type 0
Frame = List ℕ

abbrev pub Msg : Type 0
Msg = List Frame

pub record Zmsg : Type 0 where
  -- zmsg_unwrap takes the first frame off, and an empty frame behind it.
  pub unwrap : Msg → Option Frame × Msg
  pub unwrap-nil : unwrap [] ≡ (none, [])
  pub unwrap-one : (f : Frame) → unwrap (f ∷ []) ≡ (some f, [])
  pub unwrap-empty : (f : Frame) (m : Msg) → unwrap (f ∷ [] ∷ m) ≡ (some f, m)
  pub unwrap-frame :
      (f : Frame) (c : ℕ) (g : Frame) (m : Msg) → unwrap (f ∷ (c ∷ g) ∷ m) ≡ (some f, (c ∷ g) ∷ m)
  -- zmsg_wrap puts a frame and an empty frame in front.
  pub wrap : Msg → Frame → Msg
  pub wrap_lem : (m : Msg) (f : Frame) → wrap m f ≡ f ∷ [] ∷ m
  -- zmsg_push, zmsg_pushmem and zmsg_pushstr put a frame in front; zmsg_pop takes the first off.
  pub push : Msg → Frame → Msg
  pub push_lem : (m : Msg) (f : Frame) → push m f ≡ f ∷ m
  pub pop : Msg → Option Frame × Msg
  pub pop-nil : pop [] ≡ (none, [])
  pub pop-cons : (f : Frame) (m : Msg) → pop (f ∷ m) ≡ (some f, m)
  pub first : Msg → Option Frame
  pub first-nil : first [] ≡ none
  pub first-cons : (f : Frame) (m : Msg) → first (f ∷ m) ≡ some f
  pub last : Msg → Option Frame
  pub last-nil : last [] ≡ none
  pub last-append : (m : Msg) (f : Frame) → last (m ++ f ∷ []) ≡ some f
  pub size : Msg → ℕ
  pub size_lem : (m : Msg) → size m ≡ length m
  -- zframe_strhex prints the bytes of a frame, and different frames differently.
  pub strhex : Frame → List ℕ
  pub strhex_inj : (f g : Frame) → strhex f ≡ strhex g → f ≡ g
