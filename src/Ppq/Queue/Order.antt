-- ===== src/Ppq/Queue/Order.antt =====
-- Lists of free workers with one entry for a name, in the order of expiry.
use zmq_test.Common.{
  ℕ, ◌≤◌, sym, List, [], ◌∷◌, ◌++◌, All, All-append, streq, streq→eq, streq→ne, Bool-cases, inl,
  inr,
}
use zmq_test.Ppq.Defs.{Worker}
use zmq_test.Ppq.Queue.Registry.{Unnamed, drop_id}
use zmq_test.Ppq.Queue.Purge.{Sorted}

-- No two workers of the list have one name.
abbrev pub Distinct : List Worker → Type 0
Distinct [] = Unit
Distinct (w ∷ ws) = Unnamed w.id_string ws × Distinct ws

pub drop_id-All {ℓ} :
    (P : Worker → Type ℓ) (id : List ℕ) (xs : List Worker) → All P xs → All P (drop_id id xs)
unfolding drop_id
drop_id-All P id [] h = tt
drop_id-All P id (x ∷ xs) h = elim (Bool-cases (streq id x.id_string)) [
  | inl hit ↦ rw hit h.1
  | inr miss ↦ rw miss (h.0, drop_id-All P id xs h.1)
]

pub drop_id-Sorted : (id : List ℕ) (xs : List Worker) → Sorted xs → Sorted (drop_id id xs)
unfolding drop_id
drop_id-Sorted id [] h = tt
drop_id-Sorted id (x ∷ xs) h = elim (Bool-cases (streq id x.id_string)) [
  | inl hit ↦ rw hit h.1
  | inr miss ↦ rw miss (drop_id-All _ id xs h.0, drop_id-Sorted id xs h.1)
]

pub drop_id-Distinct : (id : List ℕ) (xs : List Worker) → Distinct xs → Distinct (drop_id id xs)
unfolding drop_id
drop_id-Distinct id [] h = tt
drop_id-Distinct id (x ∷ xs) h = elim (Bool-cases (streq id x.id_string)) [
  | inl hit ↦ rw hit h.1
  | inr miss ↦ rw miss (drop_id-All _ id xs h.0, drop_id-Distinct id xs h.1)
]

pub drop_id-Unnamed : (id : List ℕ) (xs : List Worker) → Distinct xs → Unnamed id (drop_id id xs)
unfolding drop_id
drop_id-Unnamed id [] h = tt
drop_id-Unnamed id (x ∷ xs) h = elim (Bool-cases (streq id x.id_string)) [
  | inl hit ↦ rw (hit, streq→eq id x.id_string hit) h.0
  | inr miss ↦ rw miss ((λ e. streq→ne _ _ miss (sym e)), drop_id-Unnamed id xs h.1)
]

pub Distinct-snoc :
    (xs : List Worker) (w : Worker) → Distinct xs → Unnamed w.id_string xs → Distinct (xs ++ w ∷ [])
Distinct-snoc [] w d u = (tt, tt)
Distinct-snoc (x ∷ xs) w d u =
    (All-append _ xs (w ∷ []) d.0 ((λ e. u.0 (sym e)), tt), Distinct-snoc xs w d.1 u.1)

pub Sorted-snoc :
    (xs : List Worker) (w : Worker)
    → Sorted xs
    → All (λ v. v.expiry ≤ w.expiry) xs
    → Sorted (xs ++ w ∷ [])
Sorted-snoc [] w s h = (tt, tt)
Sorted-snoc (x ∷ xs) w s h = (All-append _ xs (w ∷ []) s.0 (h.0, tt), Sorted-snoc xs w s.1 h.1)

pub Distinct-append_right : (xs ys : List Worker) → Distinct (xs ++ ys) → Distinct ys
Distinct-append_right [] ys d = d
Distinct-append_right (x ∷ xs) ys d = Distinct-append_right xs ys d.1

pub Sorted-append_right : (xs ys : List Worker) → Sorted (xs ++ ys) → Sorted ys
Sorted-append_right [] ys s = s
Sorted-append_right (x ∷ xs) ys s = Sorted-append_right xs ys s.1
