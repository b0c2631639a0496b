-- ===== src/Weather.antt =====
-- src/weather: a server that tells the weather of many places, and a client that takes the average of
-- a hundred temperatures of one. The texts of sprintf and sscanf are parameters.
pub mod Average
mod Tests
use zmq_test.Common.{ℕ, zero, suc, ◌+◌, ◌≤◌, ◌<◌, ◌≡◌, Option, List, [], ◌∷◌, length}
use zmq_test.Common.Int.{ℤ, pos, diff, ◌+ℤ◌, quot, Between}
use zmq_test.Czmq.{Frame}
use zmq_test.Base.Strings.{IsText, c_string, received}
use zmq_test.Base.Random.{randof}

pub record Update : Type 0 where
  pub zipcode : ℕ
  pub temperature : ℤ
  pub relhumidity : ℕ

-- What server.c makes of three numbers from `random()`.
pub update : ℕ → ℕ → ℕ → Update
update r s t = record {
  zipcode = randof 100000 r;
  temperature = diff (randof 215 s) 80;
  relhumidity = randof 50 t + 10;
}

-- Numbers of at most six, three and two digits, the second one with a sign.
abbrev pub IsSmall : Update → Type 0
IsSmall u = (u.zipcode < 1000000) × Between 999 u.temperature 999 × (u.relhumidity < 100)

-- sprintf with "%05d %d %d", and sscanf with "%d %d %d".
pub record Reports : Type 0 where
  pub sprintf : Update → List ℕ
  pub sscanf : List ℕ → Update
  pub sscanf-sprintf : (u : Update) → IsSmall u → sscanf (sprintf u) ≡ u
  pub sprintf-text : (u : Update) → IsSmall u → IsText (sprintf u)
  pub length-sprintf : (u : Update) → IsSmall u → length (sprintf u) ≤ 14

module _ (R : Reports) where
  open R use {sprintf, sscanf}

  -- What server.c sends of an update.
  pub publish : Update → Frame
  publish u = c_string (sprintf u)

  -- The loop of client.c, with the updates that are left; `frames i` is the i-th one that comes.
  pub total : (ℕ → Frame) → ℕ → ℕ → ℤ → ℤ
  total frames zero update_nbr total_temp = total_temp
  total frames (suc left) update_nbr total_temp =
      total frames left (update_nbr + 1)
        (total_temp +ℤ (sscanf (received 256 (frames update_nbr))).temperature)

  -- The average that client.c prints.
  pub average : (ℕ → Frame) → ℤ
  average frames = quot (total frames 100 0 (pos 0)) 100
