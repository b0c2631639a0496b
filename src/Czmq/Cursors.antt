-- ===== src/Czmq/Cursors.antt =====
-- Where the cursor of a `zlist_t` stands after a call, in terms of the items.
use zmq_test.Common.{◌≡◌, ap, ◌∙◌, List, head?}
use zmq_test.Czmq.Containers.{Zlist}

module _ {A : Type 0} (Z : Zlist A) {l : Z.Carrier} {xs : List A} where
  pub first-cursor : Z.items l ≡ xs → Z.first l ≡ (head? xs, (Z.first l).1)
  first-cursor e = λ i. ((Z.first-head l ∙ ap head? e) i, (Z.first l).1)

  pub next-cursor : Z.rest l ≡ xs → Z.next l ≡ (head? xs, (Z.next l).1)
  next-cursor e = λ i. ((Z.next-head l ∙ ap head? e) i, (Z.next l).1)

  pub pop-cursor : Z.items l ≡ xs → Z.pop l ≡ (head? xs, (Z.pop l).1)
  pop-cursor e = λ i. ((Z.pop-head l ∙ ap head? e) i, (Z.pop l).1)
