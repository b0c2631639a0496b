-- ===== src/Czmq/Instances.antt =====
-- Values of the interfaces, which show that their laws can be met and on which tests run.
use mathlib.Core.Logic.{ite, if_pos, if_neg}
use zmq_test.Common.{
  ◌≡◌, ◌≢◌, refl, ap, ◌∙◌, Option, none, some, List, [], ◌∷◌, ◌++◌, head?, tail, length, All,
}
use zmq_test.Czmq.Frames.{Frame, Msg, Zmsg}
use zmq_test.Czmq.Containers.{Zlist}

abbrev pub unwrap : Msg → Option Frame × Msg
unwrap [] = (none, [])
unwrap (f ∷ []) = (some f, [])
unwrap (f ∷ [] ∷ m) = (some f, m)
unwrap (f ∷ (c ∷ g) ∷ m) = (some f, (c ∷ g) ∷ m)

abbrev pub pop_frame : Msg → Option Frame × Msg
pop_frame [] = (none, [])
pop_frame (f ∷ m) = (some f, m)

abbrev pub last_frame : Msg → Option Frame
last_frame [] = none
last_frame (f ∷ []) = some f
last_frame (f ∷ g ∷ m) = last_frame (g ∷ m)

pub last_frame-append : (m : Msg) (f : Frame) → last_frame (m ++ f ∷ []) ≡ some f
last_frame-append [] f = refl
last_frame-append (g ∷ []) f = refl
last_frame-append (g ∷ h ∷ m) f = last_frame-append (h ∷ m) f

abbrev pub lists_zmsg : Zmsg
lists_zmsg = record {
  unwrap = unwrap;
  unwrap-nil = refl;
  unwrap-one = λ f. refl;
  unwrap-empty = λ f m. refl;
  unwrap-frame = λ f c g m. refl;
  wrap = λ m f. f ∷ [] ∷ m;
  wrap_lem = λ m f. refl;
  push = λ m f. f ∷ m;
  push_lem = λ m f. refl;
  pop = pop_frame;
  pop-nil = refl;
  pop-cons = λ f m. refl;
  first = head?;
  first-nil = refl;
  first-cons = λ f m. refl;
  last = last_frame;
  last-nil = refl;
  last-append = last_frame-append;
  size = length;
  size_lem = λ m. refl;
  strhex = λ f. f;
  strhex_inj = λ f g e. e;
}

module _ {A : Type 0} (same : Discrete A) where
  pub erase : List A → A → List A
  erase [] x = []
  erase (y ∷ ys) x = ite (same y x) ys (y ∷ erase ys x)

  pub erase_lem :
      (xs : List A) (x : A) (ys : List A) → All (λ y. y ≢ x) xs → erase (xs ++ x ∷ ys) x ≡ xs ++ ys
  unfolding erase
  erase_lem [] x ys h = if_pos (same x x) refl _ _
  erase_lem (y ∷ xs) x ys h = if_neg (same y x) h.0 _ _ ∙ ap (◌∷◌ y) (erase_lem xs x ys h.1)

  -- The items and what is left to visit.
  abbrev pub lists_zlist : Zlist A
  lists_zlist = record {
    Carrier = List A × List A;
    items = λ l. l.0;
    rest = λ l. l.1;
    empty = ([], []);
    items-empty = refl;
    append = λ l x. (l.0 ++ x ∷ [], l.1);
    items-append = λ l x. refl;
    pop = λ l. (head? l.0, (tail l.0, []));
    pop-head = λ l. refl;
    items-pop = λ l. refl;
    size = λ l. length l.0;
    size_lem = λ l. refl;
    first = λ l. (head? l.0, (l.0, tail l.0));
    first-head = λ l. refl;
    items-first = λ l. refl;
    rest-first = λ l. refl;
    next = λ l. (head? l.1, (l.0, tail l.1));
    next-head = λ l. refl;
    items-next = λ l. refl;
    rest-next = λ l. refl;
    remove = λ l x. (erase l.0 x, l.1);
    items-remove = λ l x xs ys e h. ap (λ zs. erase zs x) e ∙ erase_lem xs x ys h;
  }
