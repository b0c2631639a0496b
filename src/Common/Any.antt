-- ===== src/Common/Any.antt =====
-- Lists with an item that has a property.
use zmq_test.Common.{
  ℕ, zero, suc, ◌≡◌, ◌⊎◌, refl, inl, inr, List, [], ◌∷◌, ◌++◌, map, replicate, All, All-mono,
}

abbrev pub Any {ℓ} : {A : Type ℓ} → (A → Type 0) → List A → Type 0
Any P [] = ⊥
Any P (x ∷ xs) = P x ⊎ Any P xs

abbrev pub Among : {A : Type 0} → A → List A → Type 0
Among a = Any λ b. a ≡ b

module _ {ℓ} {A : Type ℓ} (P : A → Type 0) where
  pub Any-append_left : (xs ys : List A) → Any P xs → Any P (xs ++ ys)
  Any-append_left (x ∷ xs) ys (inl h) = inl h
  Any-append_left (x ∷ xs) ys (inr h) = inr (Any-append_left xs ys h)
  Any-append_left [] ys h = absurd h

  pub Any-append_right : (xs ys : List A) → Any P ys → Any P (xs ++ ys)
  Any-append_right [] ys h = h
  Any-append_right (x ∷ xs) ys h = inr (Any-append_right xs ys h)

  pub All-replicate : (n : ℕ) (x : A) → P x → All P (replicate n x)
  All-replicate zero x h = tt
  All-replicate (suc n) x h = (h, All-replicate n x h)

-- Each item's image is among the images.
pub Among-map :
    {A : Type 0} {B : Type 0} (f : A → B) (xs : List A) → All (λ x. Among (f x) (map f xs)) xs
Among-map f [] = tt
Among-map f (x ∷ xs) =
    (inl refl, All-mono _ (λ y. Among (f y) (map f (x ∷ xs))) (λ y h. inr h) xs (Among-map f xs))

-- Two lists of the same length, item by item.
abbrev pub Pairs : {A B : Type 0} → (A → B → Type 0) → List A → List B → Type 0
Pairs R [] [] = Unit
Pairs R (x ∷ xs) (y ∷ ys) = R x y × Pairs R xs ys
Pairs R _ _ = ⊥

pub Pairs-map :
    {A B : Type 0} (R : A → B → Type 0) (f : B → A) (ys : List B)
    → ((y : B) → R (f y) y)
    → Pairs R (map f ys) ys
Pairs-map R f [] h = tt
Pairs-map R f (y ∷ ys) h = (h y, Pairs-map R f ys h)

pub Pairs-mono :
    {A B : Type 0} (Q : B → Type 0) (R S : A → B → Type 0)
    → ((x : A) (y : B) → Q y → R x y → S x y)
    → (xs : List A) (ys : List B) → All Q ys
    → Pairs R xs ys
    → Pairs S xs ys
Pairs-mono Q R S f [] [] q h = tt
Pairs-mono Q R S f (x ∷ xs) (y ∷ ys) q h = (f x y q.0 h.0, Pairs-mono Q R S f xs ys q.1 h.1)
Pairs-mono Q R S f [] (y ∷ ys) q h = absurd h
Pairs-mono Q R S f (x ∷ xs) [] q h = absurd h
