-- ===== src/Cloud/State/Reports.antt =====
-- What a broker of src/cloud/stateflow.c learns of another one.
use zmq_test.Common.{
  ℕ, suc, ◌^◌, ◌≤◌, ◌<◌, ◌≡◌, refl, sym, ap, ◌∙◌, List, [], ◌∷◌, ◌++◌, map, take, length, All,
  append_assoc, append-nil, arith,
}
use zmq_test.Czmq.{Frame, Msg}
use zmq_test.Base.Strings.{IsText, c_string-text}
use zmq_test.Base.Random.{randof}
use zmq_test.Base.Random.Range.{randof-le}
use zmq_test.Base.Numbers.{Decimals}
use zmq_test.Cloud.State.{
  Event, failed, arrived, silent, Broker, running, receive, send, turn, run, start,
}

-- A name and a number, as they are printed, and as the frames of a message.
abbrev pub Report : Type 0
Report = List ℕ × List ℕ

abbrev pub message : Report → Msg
message (name, count) = name ∷ count ∷ []

abbrev pub frames : List Msg → List Frame
frames [] = []
frames (m ∷ ms) = m ++ frames ms

abbrev pub arrivals : List Event → ℕ
arrivals [] = 0
arrivals (failed ∷ es) = arrivals es
arrivals (arrived ∷ es) = suc (arrivals es)
arrivals (silent random ∷ es) = arrivals es

-- No poll fails.
abbrev pub IsPlain : Event → Type 0
IsPlain failed = ⊥
IsPlain arrived = Unit
IsPlain (silent random) = Unit

abbrev pub AreTexts : Report → Type 0
AreTexts (name, count) = IsText name × IsText count

module _ (D : Decimals) (self : List ℕ) where
  -- A broker that has these reports to receive.
  listens :
      (es : List Event) (rs : List Report) (b : Broker)
      → b.statefe ≡ frames (map message rs)
      → All AreTexts rs
      → All IsPlain es
      → arrivals es ≤ length rs
      → (c : Broker) × (run D self b es ≡ running c)
        × (c.printed ≡ b.printed ++ take (arrivals es) rs)
  unfolding run turn receive
  listens [] rs b q t p h = (b, refl, sym (append-nil b.printed))
  listens (failed ∷ es) rs b q t p h = absurd p.0
  listens (silent random ∷ es) rs b q t p h = listens es rs (send D self b random) q t p.1 h
  listens (arrived ∷ es) [] b q t p h = absurd (omega (arith, h))
  listens (arrived ∷ es) ((name, count) ∷ rs) b q t p h =
      let heard = record b {
        statefe = frames (map message rs);
        printed = b.printed ++ (name, count) ∷ [];
      } in
      let (c, r, e) = listens es rs heard refl t.1 p.1 (omega (arith, h)) in
      (
        c,
        rw (q, c_string-text name t.0.0, c_string-text count t.0.1) r,
        e ∙ append_assoc b.printed ((name, count) ∷ []) (take (arrivals es) rs),
      )

length-map {ℓ κ} :
    {A : Type ℓ} {B : Type κ} (f : A → B) (xs : List A) → length (map f xs) ≡ length xs
length-map f [] = refl
length-map f (x ∷ xs) = ap suc (length-map f xs)

-- What a broker of this name tells with a number from `random()`.
abbrev pub report : Decimals → List ℕ → ℕ → Report
report D name random = (name, D.print (randof 10 random))

module _ (D : Decimals) (name : List ℕ) (h : IsText name) where
  tells :
      (draws : List ℕ) (b : Broker)
      → run D name b (map silent draws)
        ≡ running (record b { statebe = b.statebe ++ map message (map (report D name) draws) })
  unfolding run turn send
  tells [] b = ap (λ ms. running (record b { statebe = ms })) (sym (append-nil b.statebe))
  tells (random ∷ draws) b =
      let said = (name ∷ D.print (randof 10 random) ∷ []) ∷ [] in
      rw (c_string-text name h) (
        tells draws (record b { statebe = b.statebe ++ said })
        ∙ ap (λ ms. running (record b { statebe = ms }))
            (append_assoc b.statebe said (map message (map (report D name) draws))))

  report-AreTexts :
      (draws : List ℕ) → All (λ r. r < 2 ^ 31) draws → All AreTexts (map (report D name) draws)
  report-AreTexts [] f = tt
  report-AreTexts (random ∷ draws) f =
      let le = randof-le 10 random (omega arith) f.0 in
      ((h, D.print-text (randof 10 random) (omega (arith, le))), report-AreTexts draws f.1)

  -- A broker of this name that hears nothing for some polls sends its name and a number for each. If
  -- another broker has all of these frames to receive, no poll of it fails, and no more polls show
  -- something to read than there are messages, it prints as many names and numbers as there were such
  -- polls, in the order in which they were sent, whatever it sends itself in between.
  pub reports_heard :
      (self : List ℕ) (draws : List ℕ) (es : List Event)
      → All (λ r. r < 2 ^ 31) draws
      → All IsPlain es
      → arrivals es ≤ length draws
      → (a : Broker) × (run D name (start []) (map silent draws) ≡ running a)
        × ((c : Broker) × (run D self (start (frames a.statebe)) es ≡ running c)
            × (c.printed ≡ take (arrivals es) (map (report D name) draws)))
  reports_heard self draws es f p l =
      let rs = map (report D name) draws in
      (
        record (start []) { statebe = map message rs },
        tells draws (start []),
        listens D self es rs (start (frames (map message rs))) refl (report-AreTexts draws f) p
            (omega (arith, l, length-map (report D name) draws)),
      )
