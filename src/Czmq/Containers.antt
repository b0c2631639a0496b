-- ===== src/Czmq/Containers.antt =====
-- `zlist_t`: a list with a cursor. An item is found by its identity in C; the law of `remove` asks
-- that no earlier item be equal to it.
use zmq_test.Common.{ℕ, ◌≡◌, ◌≢◌, Option, List, [], ◌∷◌, ◌++◌, head?, tail, length, All}

pub record Zlist (A : Type 0) : Type 1 where
  pub Carrier : Type 0
  -- What it holds, front first, and what zlist_next has still to visit.
  pub items : Carrier → List A
  pub rest : Carrier → List A
  pub empty : Carrier
  pub items-empty : items empty ≡ []
  pub append : Carrier → A → Carrier
  pub items-append : (l : Carrier) (x : A) → items (append l x) ≡ items l ++ x ∷ []
  pub pop : Carrier → Option A × Carrier
  pub pop-head : (l : Carrier) → (pop l).0 ≡ head? (items l)
  pub items-pop : (l : Carrier) → items (pop l).1 ≡ tail (items l)
  pub size : Carrier → ℕ
  pub size_lem : (l : Carrier) → size l ≡ length (items l)
  pub first : Carrier → Option A × Carrier
  pub first-head : (l : Carrier) → (first l).0 ≡ head? (items l)
  pub items-first : (l : Carrier) → items (first l).1 ≡ items l
  pub rest-first : (l : Carrier) → rest (first l).1 ≡ tail (items l)
  pub next : Carrier → Option A × Carrier
  pub next-head : (l : Carrier) → (next l).0 ≡ head? (rest l)
  pub items-next : (l : Carrier) → items (next l).1 ≡ items l
  pub rest-next : (l : Carrier) → rest (next l).1 ≡ tail (rest l)
  pub remove : Carrier → A → Carrier
  pub items-remove :
      (l : Carrier) (x : A) (xs ys : List A)
      → items l ≡ xs ++ x ∷ ys
      → All (λ y. y ≢ x) xs
      → items (remove l x) ≡ xs ++ ys
