-- ===== src/Common/Bag.antt =====
-- Lists of names up to order: the quotient of the lists by how often each name is in them.
use mathlib.Core.Quot
use mathlib.Core.Quot.{Quot}
use zmq_test.Common.{ℕ, ◌≤◌, ◌≡◌, ap, inl, inr, List, Bool-cases, streq, if◌then◌else◌, arith}
use zmq_test.Common.Weigh.{weigh}

-- How often a name is in a list.
abbrev pub once : List ℕ → List ℕ → ℕ
once c d = if streq c d then 1 else 0

abbrev pub times : List ℕ → List (List ℕ) → ℕ
times c = weigh (once c)

pub once-le : (c d : List ℕ) → once c d ≤ 1
once-le c d = elim (Bool-cases (streq c d)) [
  | inl e ↦ rw e (omega arith)
  | inr e ↦ rw e (omega arith)
]

abbrev pub SameItems : List (List ℕ) → List (List ℕ) → Type 0
SameItems xs ys = (c : List ℕ) → times c xs ≡ times c ys

abbrev pub Bag : Type 0
Bag = Quot SameItems

abbrev pub of_list : List (List ℕ) → Bag
of_list = Quot.mk

pub of_list-eq : (xs ys : List (List ℕ)) → SameItems xs ys → of_list xs ≡ of_list ys
of_list-eq xs ys h = Quot.sound h

-- How often a name is in a bag.
unfoldable pub copies : List ℕ → Bag → ℕ
copies c = Quot.lift (hlevel) (times c) λ xs ys h. h c

-- Bags are equal for lists of the same items only.
pub of_list-SameItems : (xs ys : List (List ℕ)) → of_list xs ≡ of_list ys → SameItems xs ys
unfolding copies
of_list-SameItems xs ys e c = ap (copies c) e
