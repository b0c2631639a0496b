-- ===== src/Common/Weigh.antt =====
-- Sums over lists, and an item in the middle of a list.
use zmq_test.Common.{
  All, All-append, All-append_left, All-append_right, ℕ, ◌+◌, ◌≤◌, ◌≡◌, refl, ap, List, [], ◌∷◌,
  ◌++◌, map, length, arith,
}

module _ {ℓ} {A : Type ℓ} where
  abbrev pub weigh : (A → ℕ) → List A → ℕ
  weigh f [] = 0
  weigh f (x ∷ xs) = f x + weigh f xs

  pub weigh-append : (f : A → ℕ) (xs ys : List A) → weigh f (xs ++ ys) ≡ weigh f xs + weigh f ys
  weigh-append f [] ys = omega arith
  weigh-append f (x ∷ xs) ys = omega (arith, weigh-append f xs ys)

  pub weigh-le : (f g : A → ℕ) → ((x : A) → f x ≤ g x) → (xs : List A) → weigh f xs ≤ weigh g xs
  weigh-le f g h [] = omega arith
  weigh-le f g h (x ∷ xs) = omega (arith, h x, weigh-le f g h xs)

  pub weigh-length : (xs : List A) → weigh (λ x. 1) xs ≡ length xs
  weigh-length [] = refl
  weigh-length (x ∷ xs) = omega (arith, weigh-length xs)

pub weigh-map {ℓ κ} :
    {A : Type ℓ} {B : Type κ} (f : B → ℕ) (g : A → B) (xs : List A)
    → weigh f (map g xs) ≡ weigh (λ x. f (g x)) xs
weigh-map f g [] = refl
weigh-map f g (x ∷ xs) = ap (◌+◌ (f (g x))) (weigh-map f g xs)

-- An item of a list in place of another one.
module _ {ℓ} {A : Type ℓ} where
  pub weigh-middle :
      (f : A → ℕ) (xs ys : List A) (x : A) → weigh f (xs ++ x ∷ ys) ≡ f x + weigh f (xs ++ ys)
  weigh-middle f xs ys x = omega (arith, weigh-append f xs (x ∷ ys), weigh-append f xs ys)

  pub All-middle {κ} :
      (P : A → Type κ) (xs ys : List A) (x : A) → All P (xs ++ x ∷ ys) → P x × All P (xs ++ ys)
  All-middle P xs ys x h =
      let behind = All-append_right P xs (x ∷ ys) h in
      (behind.0, All-append P xs ys (All-append_left P xs (x ∷ ys) h) behind.1)

  pub All-insert {κ} :
      (P : A → Type κ) (xs ys : List A) (x : A) → P x → All P (xs ++ ys) → All P (xs ++ x ∷ ys)
  All-insert P xs ys x h k =
      All-append P xs (x ∷ ys) (All-append_left P xs ys k) (h, All-append_right P xs ys k)

  pub map-middle {κ} :
      {B : Type κ} (f : A → B) (xs ys : List A) (x y : A)
      → f x ≡ f y
      → map f (xs ++ x ∷ ys) ≡ map f (xs ++ y ∷ ys)
  map-middle f [] ys x y e = ap (λ b. b ∷ map f ys) e
  map-middle f (z ∷ xs) ys x y e = ap (◌∷◌ (f z)) (map-middle f xs ys x y e)
