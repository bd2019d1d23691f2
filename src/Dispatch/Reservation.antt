-- ===== src/Dispatch/Reservation.antt =====
-- The SEL reservation of ipmid-new.cpp.
use phosphor_host_ipmid.Prelude.{
  ℕ, ◌+◌, ◌%◌, ◌^◌, ◌<◌, ◌≡◌, ◌≢◌, Bool, true, false, ◌&&◌, List, [], ◌∷◌, ◌==◌, if◌then◌else◌,
  arith,
}

pub record SelReservation : Type 0 where
  pub id : ℕ
  pub valid : Bool

abbrev pub initial : SelReservation
initial = record { id = 0xFFFF; valid = false }

-- The identifier is 16 bits wide and is never 0.
unfoldable pub reserve_sel : SelReservation → SelReservation × ℕ
reserve_sel s =
    let next = (s.id + 1) % 2 ^ 16 in
    let id = if next == 0 then 1 else next in (record { id = id; valid = true }, id)

unfoldable pub check_sel_reservation : ℕ → SelReservation → Bool
check_sel_reservation id s = s.valid && s.id == id

unfoldable pub cancel_sel_reservation : SelReservation → SelReservation
cancel_sel_reservation s = record s { valid = false }

pub data Call : Type 0 where
  reserve cancel : Call

abbrev pub step : SelReservation → Call → SelReservation
step s reserve = (reserve_sel s).0
step s cancel = cancel_sel_reservation s

abbrev pub run : SelReservation → List Call → SelReservation
run s [] = s
run s (c ∷ cs) = run (step s c) cs

-- The identifier that `reserveSel` returns is a non-zero 16-bit number other than the last one. It
-- is the only one that passes the check, until the reservation is cancelled: then none does.
pub reserve_sel-check :
    (s : SelReservation) (id : ℕ)
    → s.id < 2 ^ 16
    → let (t, new) = reserve_sel s in
      (new ≢ 0)
      × (new < 2 ^ 16)
      × (new ≢ s.id)
      × (check_sel_reservation id t ≡ (new == id))
      × (check_sel_reservation id (cancel_sel_reservation t) ≡ false)
unfolding reserve_sel check_sel_reservation cancel_sel_reservation
reserve_sel-check s id h = (ground arith, ground arith, ground arith, ground arith, ground arith)

-- So over any history of reservations and cancellations the identifier stays a 16-bit number.
pub run-id : (s : SelReservation) (cs : List Call) → s.id < 2 ^ 16 → (run s cs).id < 2 ^ 16
unfolding reserve_sel cancel_sel_reservation
run-id s [] h = h
run-id s (reserve ∷ cs) h = run-id (reserve_sel s).0 cs (ground arith)
run-id s (cancel ∷ cs) h = run-id (cancel_sel_reservation s) cs h
