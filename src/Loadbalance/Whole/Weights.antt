-- ===== src/Loadbalance/Whole/Weights.antt =====
-- What a poll takes from lists, and sums over what is left.
use zmq_test.Common.{
  ℕ, ◌+◌, ◌≡◌, refl, Option, none, some, List, [], ◌∷◌, ◌++◌, length, length-append, drop, All,
  All-append, All-append_left, All-append_right, arith,
}
use zmq_test.Loadbalance.Whole.{Takes, nothing, one}
pub use zmq_test.Common.Weigh.{weigh, weigh-append, weigh-le, weigh-length, weigh-map}

module _ {ℓ} {A : Type ℓ} where
  pub drop-append : (xs ys : List A) → drop (length xs) (xs ++ ys) ≡ ys
  drop-append [] ys = refl
  drop-append (x ∷ xs) ys = drop-append xs ys

  -- The sum over what may be there.
  abbrev pub weight_of : (A → ℕ) → Option A → ℕ
  weight_of f none = 0
  weight_of f (some x) = f x

  abbrev pub Maybe {κ} : (A → Type κ) → Option A → Type κ
  Maybe P none = Unit
  Maybe P (some x) = P x

  pub weigh-Takes :
      (f : A → ℕ) (o : Option A) (xs ys : List A)
      → Takes o xs ys
      → weigh f xs ≡ weigh f ys + weight_of f o
  weigh-Takes f o xs ys (nothing zs) = omega arith
  weigh-Takes f o xs ys (one zs x bs) =
      omega (arith, weigh-append f zs (x ∷ bs), weigh-append f zs bs)

  pub length-Takes :
      (o : Option A) (xs ys : List A) → Takes o xs ys → length xs ≡ length ys + weight_of (λ x. 1) o
  length-Takes o xs ys (nothing zs) = omega arith
  length-Takes o xs ys (one zs x bs) = omega (arith, length-append zs (x ∷ bs), length-append zs bs)

  pub All-Takes {κ} :
      (P : A → Type κ) (o : Option A) (xs ys : List A)
      → Takes o xs ys
      → All P xs
      → Maybe P o × All P ys
  All-Takes P o xs ys (nothing zs) h = (tt, h)
  All-Takes P o xs ys (one zs x bs) h =
      let behind = All-append_right P zs (x ∷ bs) h in
      (behind.0, All-append P zs bs (All-append_left P zs (x ∷ bs) h) behind.1)
