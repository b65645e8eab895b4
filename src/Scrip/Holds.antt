-- ===== src/Scrip/Holds.antt =====
-- Reservations: a hold is consumed at most once, and what is saved is what comes back.
use dontguess.Base.{
  ℕ, ◌≡◌, inl, inr, lookup, arith, Option-cases, lookup-insert, lookup-erase, ◌∙◌, if◌then◌else◌,
  ◌==◌,
}
use dontguess.Scrip.Types.{Reservation, Store}
use dontguess.Scrip.Budget.{ok, err, reservation_not_found}
use dontguess.Scrip.Reservations.{
  save_reservation, get_reservation, consume_reservation, delete_reservation,
}

get-save_reservation :
    (j : ℕ) (r : Reservation) (s : Store)
    → get_reservation j (save_reservation r s) ≡ (if j == r.id then ok r else get_reservation j s)
unfolding get_reservation save_reservation
get-save_reservation j r s = ground (arith, lookup-insert j r.id r s.reservations)

-- A consumed reservation is gone: whatever the first call returned, a second consume, a get and a
-- delete of the same id all report reservation_not_found, and no other reservation is touched.
consume_reservation_once :
    (id : ℕ) (s : Store)
    → let t = (consume_reservation id s).0 in
      ((consume_reservation id s).1 ≡ get_reservation id s)
      × (consume_reservation id t ≡ (t, err reservation_not_found))
      × (delete_reservation id t ≡ (t, err reservation_not_found))
      × ((j : ℕ)
          → get_reservation j t
            ≡ (if j == id then err reservation_not_found else get_reservation j s))
unfolding consume_reservation delete_reservation get_reservation
consume_reservation_once id s = elim (Option-cases (lookup id s.reservations)) [
  | inl e ↦ (ground arith, ground arith, ground arith, λ j. ground arith)
  | inr (r, e) ↦
      let gone = lookup-erase id id s.reservations in
      (
        ground arith,
        ground arith,
        ground arith,
        λ j. ground (arith, lookup-erase j id s.reservations),
      )
]

-- A reservation that is saved is consumed once, and without a trace: the first consume of its id returns
-- it; after that a second consume and a delete report reservation_not_found and change nothing, the id
-- has no reservation, and every other id has what it had before the reservation was saved.
pub consume-save_reservation :
    (r : Reservation) (s : Store)
    → let t = (consume_reservation r.id (save_reservation r s)).0 in
      ((consume_reservation r.id (save_reservation r s)).1 ≡ ok r)
      × (consume_reservation r.id t ≡ (t, err reservation_not_found))
      × (delete_reservation r.id t ≡ (t, err reservation_not_found))
      × ((j : ℕ)
          → get_reservation j t
            ≡ (if j == r.id then err reservation_not_found else get_reservation j s))
consume-save_reservation r s =
    let (first, again, deleted, others) = consume_reservation_once r.id (save_reservation r s) in
    (
      first ∙ get-save_reservation r.id r s ∙ ground arith,
      again,
      deleted,
      λ j. ground (arith, others j, get-save_reservation j r s),
    )
