-- ===== src/Weather/Tests.antt =====
-- The weather of one place that is always the same, with short texts in place of those of sprintf.
use zmq_test.Common.{
  ℕ, ◌+◌, ◌-◌, ◌*◌, ◌/◌, ◌%◌, ◌≤◌, ◌≡◌, List, [], ◌∷◌, length, arith, ◌==◌, if◌then◌else◌,
}
use zmq_test.Common.Int.{ℤ, pos, negsuc, quot, Between}
use zmq_test.Weather.{Update, Reports, publish, average}
use zmq_test.Czmq.{Frame}
use zmq_test.Weather.Average.{sum, update_of, average_lem}

abbrev code : ℤ → ℕ
code (pos n) = 2 * n + 1
code (negsuc n) = 2 * n + 2

abbrev decode : ℕ → ℤ
decode c = if c % 2 == 1 then pos ((c - 1) / 2) else negsuc ((c - 2) / 2)

decode-code : (z : ℤ) → decode (code z) ≡ z
decode-code (pos n) = ground arith
decode-code (negsuc n) = ground arith

abbrev print : Update → List ℕ
print u = (u.zipcode + 1) ∷ code u.temperature ∷ (u.relhumidity + 1) ∷ []

abbrev scan : List ℕ → Update
scan (z ∷ t ∷ h ∷ []) = record { zipcode = z - 1; temperature = decode t; relhumidity = h - 1 }
scan _ = record { zipcode = 0; temperature = pos 0; relhumidity = 0 }

scan-print : (u : Update) → scan (print u) ≡ u
scan-print u i = record {
  zipcode = zip i;
  temperature = decode-code u.temperature i;
  relhumidity = hum i;
}
  where
    zip : u.zipcode + 1 - 1 ≡ u.zipcode
    zip = omega arith

    hum : u.relhumidity + 1 - 1 ≡ u.relhumidity
    hum = omega arith

code-ne : (z : ℤ) → 1 ≤ code z
code-ne (pos n) = omega arith
code-ne (negsuc n) = omega arith

abbrev reports : Reports
reports = record {
  sprintf = print;
  sscanf = scan;
  sscanf-sprintf = λ u h. scan-print u;
  sprintf-text = λ u h. (omega arith, (omega (arith, code-ne u.temperature), (omega arith, tt)));
  length-sprintf = λ u h. omega arith;
}

abbrev draws : ℕ → ℕ × ℕ × ℕ
draws i = (7, 8, 9)

abbrev sent : ℕ → Frame
sent i = publish reports (update_of (draws i))

average_lem_example :
    (length (reports.sprintf (update_of (draws 3))) + 1 ≤ 20)
    × (average reports sent ≡ quot (sum (λ i. (update_of (draws i)).temperature) 100 0 (pos 0)) 100)
    × Between 80 (average reports sent) 135
average_lem_example = average_lem reports draws (λ i. (omega arith, omega arith, omega arith)) 3
