-- ===== src/Common/Steps.antt =====
-- Runs of a relation between states, counted.
use Prim.Native.Nat.{ℕ, suc}

-- n steps from one state to another.
pub data Steps {ℓ} {A : Type ℓ} (R : A → A → Type ℓ) (s : A) : ℕ → A → Type ℓ where
  here : Steps R s 0 s
  next : {n : ℕ} {t u : A} → Steps R s n t → R t u → Steps R s (suc n) u

-- What holds at the start, and after each step, with one more counted, holds of all runs.
pub Steps-induction {ℓ κ} :
    {A : Type ℓ} (R : A → A → Type ℓ) (P : ℕ → A → Type κ) {s : A}
    → P 0 s
    → ((n : ℕ) (t u : A) → R t u → P n t → P (suc n) u)
    → {n : ℕ} {t : A} → Steps R s n t
    → P n t
Steps-induction R P z k here = z
Steps-induction R P z k (next {n = n} {t = t} {u = u} r q) = k n t u q (Steps-induction R P z k r)
