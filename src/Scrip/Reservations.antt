-- ===== src/Scrip/Reservations.antt =====
-- SaveReservation, GetReservation, DeleteReservation and ConsumeReservation of relay_store.go.
use dontguess.Base.{ℕ, Option, none, some, lookup, insert, erase}
use dontguess.Scrip.Types.{Reservation, Store}
use dontguess.Scrip.Budget.{Result, ok, err, reservation_not_found}

unfoldable pub save_reservation : Reservation → Store → Store
save_reservation r s = record s { reservations = insert r.id r s.reservations }

abbrev found : Option Reservation → Result Reservation
found none = err reservation_not_found
found (some r) = ok r

unfoldable pub get_reservation : ℕ → Store → Result Reservation
get_reservation id s = found (lookup id s.reservations)

without : ℕ → Store → Option Reservation → Store
without id s none = s
without id s (some r) = record s { reservations = erase id s.reservations }

unfoldable pub consume_reservation : ℕ → Store → Store × Result Reservation
unfolding without
consume_reservation id s = let o = lookup id s.reservations in (without id s o, found o)

abbrev forget : Result Reservation → Result (Unit {0})
forget (ok r) = ok tt
forget (err e) = err e

unfoldable pub delete_reservation : ℕ → Store → Store × Result (Unit {0})
unfolding without
delete_reservation id s = let o = lookup id s.reservations in (without id s o, forget (found o))
