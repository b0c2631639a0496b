-- ===== src/Base/Numbers/Decimal.antt =====
-- A printing that has the laws of `Decimals`.
use native.Mathlib.Nat.{pow-succ'}
use zmq_test.Common.{
  ℕ, zero, suc, ◌+◌, ◌-◌, ◌*◌, ◌/◌, ◌%◌, ◌^◌, ◌≤◌, ◌<◌, ◌≡◌, refl, ◌∙◌, inl, inr, List, [], ◌∷◌,
  ◌++◌, length, length-append, All-append, arith, ltb, if◌then◌else◌, Bool-cases,
}
use zmq_test.Base.Strings.{IsText}
use zmq_test.Base.Numbers.{Decimals}

pub decimal : ℕ → ℕ → List ℕ
decimal zero n = []
decimal (suc fuel) n =
    let front = decimal fuel (n / 10) in (if ltb n 10 then [] else front) ++ (b'0' + n % 10) ∷ []

pub value : ℕ → List ℕ → ℕ
value a [] = a
value a (c ∷ s) = value (a * 10 + (c - b'0')) s

value-append : (a : ℕ) (s : List ℕ) (c : ℕ) → value a (s ++ c ∷ []) ≡ value a s * 10 + (c - b'0')
unfolding value
value-append a [] c = refl
value-append a (d ∷ s) c = value-append (a * 10 + (d - b'0')) s c

value-one : (c : ℕ) → value 0 (c ∷ []) ≡ c - b'0'
unfolding value
value-one c = omega arith

pub value-decimal : (fuel n : ℕ) → n < 10 ^ fuel → value 0 (decimal fuel n) ≡ n
unfolding decimal value
value-decimal zero n h = omega arith
value-decimal (suc fuel) n h = elim (Bool-cases (ltb n 10)) [
  | inl one ↦ rw one (value-one (b'0' + n % 10) ∙ ground arith)
  | inr more ↦ rw more (
      value-append 0 (decimal fuel (n / 10)) (b'0' + n % 10)
      ∙ omega (arith, value-decimal fuel (n / 10) (omega (arith, pow-succ' 10 fuel))))
]

pub length-decimal : (fuel n : ℕ) → length (decimal fuel n) ≤ fuel
unfolding decimal
length-decimal zero n = omega arith
length-decimal (suc fuel) n = elim (Bool-cases (ltb n 10)) [
  | inl one ↦ rw one (omega arith)
  | inr more ↦ rw more (
      omega (
        arith,
        length-append (decimal fuel (n / 10)) ((b'0' + n % 10) ∷ []),
        length-decimal fuel (n / 10),
      ))
]

pub decimal-IsText : (fuel n : ℕ) → IsText (decimal fuel n)
unfolding decimal
decimal-IsText zero n = tt
decimal-IsText (suc fuel) n = elim (Bool-cases (ltb n 10)) [
  | inl one ↦ rw one ((λ e. omega (arith, e)), tt)
  | inr more ↦ rw more (
      All-append _ (decimal fuel (n / 10)) ((b'0' + n % 10) ∷ []) (decimal-IsText fuel (n / 10))
        ((λ e. omega (arith, e)), tt))
]

abbrev pub decimals : Decimals
decimals = record {
  print = decimal 10;
  atoi = value 0;
  atoi-print = λ n h. value-decimal 10 n (omega arith);
  print-text = λ n h. decimal-IsText 10 n;
  length-print = λ n h. length-decimal 10 n;
}
