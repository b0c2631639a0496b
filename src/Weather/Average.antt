-- ===== src/Weather/Average.antt =====
-- The bounds of what the programs of src/weather print.
use zmq_test.Common.{ℕ, zero, suc, ◌+◌, ◌*◌, ◌^◌, ◌≤◌, ◌<◌, ◌≡◌, refl, ap, ◌∙◌, length, arith}
use zmq_test.Common.Int.{ℤ, pos, ◌+ℤ◌, quot, Between, diff-Between, +ℤ-Between, quot-Between}
use zmq_test.Czmq.{Frame}
use zmq_test.Base.Strings.{c_string-text, received, received-text}
use zmq_test.Base.Random.{randof}
use zmq_test.Base.Random.Range.{randof-le}
use zmq_test.Weather.{Update, update, IsSmall, Reports, publish, total, average}

-- Three numbers that `random()` can give.
abbrev pub Drawn : ℕ × ℕ × ℕ → Type 0
Drawn (r, s, t) = (r < 2 ^ 31) × (s < 2 ^ 31) × (t < 2 ^ 31)

abbrev pub update_of : ℕ × ℕ × ℕ → Update
update_of (r, s, t) = update r s t

update-range :
    (d : ℕ × ℕ × ℕ) → Drawn d → IsSmall (update_of d) × Between 80 (update_of d).temperature 135
unfolding update
update-range (r, s, t) (hr, hs, ht) =
    let a = randof-le 100000 r (omega arith) hr in
    let b = randof-le 215 s (omega arith) hs in
    let c = randof-le 50 t (omega arith) ht in
    let h = diff-Between (randof 215 s) 80 135 b in
    ((omega (arith, a), (omega (arith, h.0), omega (arith, h.1)), omega (arith, c)), h)

-- The sum of n temperatures, from the i-th on, and one more.
abbrev pub sum : (ℕ → ℤ) → ℕ → ℕ → ℤ → ℤ
sum temperature zero i z = z
sum temperature (suc n) i z = sum temperature n (i + 1) (z +ℤ temperature i)

module _ (R : Reports) (draws : ℕ → ℕ × ℕ × ℕ) (drawn : (i : ℕ) → Drawn (draws i)) where
  open R use {sprintf, sscanf}

  abbrev pub updates : ℕ → Update
  updates i = update_of (draws i)

  abbrev pub frames : ℕ → Frame
  frames i = publish R (updates i)

  abbrev pub temperatures : ℕ → ℤ
  temperatures i = (updates i).temperature

  -- A report is received as it was printed.
  received-publish : (i : ℕ) → sscanf (received 256 (frames i)) ≡ updates i
  unfolding publish
  received-publish i =
      let small = (update-range (draws i) (drawn i)).0 in
      let text = R.sprintf-text (updates i) small in
      let short : length (sprintf (updates i)) < 256 =
        omega (arith, R.length-sprintf (updates i) small) in
      rw
        (
          c_string-text (sprintf (updates i)) text,
          received-text 256 (sprintf (updates i)) short text,
        )
        (R.sscanf-sprintf (updates i) small)

  total-sum : (n i : ℕ) (z : ℤ) → total R frames n i z ≡ sum temperatures n i z
  unfolding total
  total-sum zero i z = refl
  total-sum (suc n) i z =
      ap (λ u. total R frames n (i + 1) (z +ℤ u.temperature)) (received-publish i)
      ∙ total-sum n (i + 1) (z +ℤ temperatures i)

  sum-Between :
      (n i a b : ℕ) (z : ℤ)
      → Between a z b
      → Between (a + n * 80) (sum temperatures n i z) (b + n * 135)
  sum-Between zero i a b z h = (omega (arith, h.0), omega (arith, h.1))
  sum-Between (suc n) i a b z h =
      let one = (update-range (draws i) (drawn i)).1 in
      let k =
        sum-Between n (i + 1) (a + 80) (b + 135) (z +ℤ temperatures i)
          (+ℤ-Between a b 80 135 z (temperatures i) h one) in
      (omega (arith, k.0), omega (arith, k.1))

  -- If the client gets the texts of a hundred updates of the server, each fits the server's array of 20
  -- bytes with the byte 0 behind it, and the client prints their average temperature, rounded towards
  -- 0, which is between -80 and 135.
  pub average_lem :
      (i : ℕ)
      → (length (sprintf (updates i)) + 1 ≤ 20)
        × (average R frames ≡ quot (sum temperatures 100 0 (pos 0)) 100)
        × Between 80 (average R frames) 135
  unfolding average
  average_lem i =
      let e = total-sum 100 0 (pos 0) in
      let h = sum-Between 100 0 0 0 (pos 0) (omega arith, omega arith) in
      (
        omega (arith, R.length-sprintf (updates i) (update-range (draws i) (drawn i)).0),
        ap (λ z. quot z 100) e,
        rw e (
            quot-Between 80 135 (sum temperatures 100 0 (pos 0))
              (omega (arith, h.0), omega (arith, h.1))),
      )
