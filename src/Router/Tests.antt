-- ===== src/Router/Tests.antt =====
-- src/router/id_check.c with a name of five bytes that starts with 0: the first name is printed in
-- digits, the second one as the text that it is.
use zmq_test.Common.{ℕ, ◌≡◌, refl, Option, none, some, List, [], ◌∷◌}
use zmq_test.Base.Identity.{hex}
use zmq_test.Base.Dump.{s_dump, is_text, shown, hex2}
use zmq_test.Base.Transport.{s_send}
use zmq_test.Router.{main, received}

abbrev names : Option (List (ℕ × List ℕ)) → List (ℕ × List ℕ)
names none = []
names (some []) = []
names (some (name ∷ lines)) = name ∷ []

first_name :
    names (main (0 ∷ 16 ∷ 255 ∷ 1 ∷ 2 ∷ [])).0
    ≡ (5, b'0' ∷ b'0' ∷ b'1' ∷ b'0' ∷ b'F' ∷ b'F' ∷ b'0' ∷ b'1' ∷ b'0' ∷ b'2' ∷ []) ∷ []
unfolding main received s_dump is_text shown hex2 hex s_send
first_name = refl

second_name : names (main []).1 ≡ (5, b'P' ∷ b'E' ∷ b'E' ∷ b'R' ∷ b'2' ∷ []) ∷ []
unfolding main received s_dump is_text shown s_send
second_name = refl
