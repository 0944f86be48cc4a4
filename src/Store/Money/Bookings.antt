-- ===== src/Store/Money/Bookings.antt =====
-- No bookings of a staff member clash, and a booking is made once.
use text.Mathlib.TextPositions.{eq_refl}
use closer_v.Prelude.{
  Bool, false, ◌&&◌, ◌==◌, ◌≡◌, ◌⊎◌, inl, inr, [], ◌∷◌, ◌++◌, any, String, arith,
}
use closer_v.Prelude.Laws.{Apart, Apart-push, find?-append_new}
use closer_v.Domain.Values.{Uuid, Instant, text_before}
use closer_v.Domain.Model.{BookingRecord, BookingCreationInput}
use closer_v.Store.State.{State, ok}
use closer_v.Store.Money.{
  overlaps, new_booking, is_booking_key, book_slot, apply_booking, create_booking,
  require_customer_and_lead,
}

-- Two bookings of a tenant for one staff member whose times overlap, by the order of their texts.
abbrev pub clash : BookingRecord → BookingRecord → Bool
clash a b =
    b.tenant_id == a.tenant_id
    && b.staff_id == a.staff_id
    && text_before b.start_at a.end_at
    && text_before a.start_at b.end_at

clash_flip : (a b : BookingRecord) → clash a b ≡ false → clash b a ≡ false
clash_flip a b h = ground arith

module _ (uuid_text : Uuid → String) where
  -- What a call does to the bookings: nothing, or one more in a slot that is free.
  create_booking-bookings :
      (tenant : Uuid) (input : BookingCreationInput) (booking fresh : Uuid) (now : Instant)
      (s : State)
      → ((create_booking uuid_text tenant input booking fresh now s).1.bookings ≡ s.bookings)
        ⊎ (any (overlaps tenant input) s.bookings ≡ false)
          × ((create_booking uuid_text tenant input booking fresh now s).1.bookings
              ≡ s.bookings ++ new_booking tenant input booking ∷ [])
  unfolding create_booking book_slot apply_booking require_customer_and_lead
  create_booking-bookings tenant input booking fresh now s = ground arith

  -- No bookings of a staff member clash: whatever a call of `createBooking` does,
  -- it keeps the bookings free of clashes.
  pub create_booking-Apart :
      (tenant : Uuid) (input : BookingCreationInput) (booking fresh : Uuid) (now : Instant)
      (s : State)
      → Apart clash s.bookings
      → Apart clash (create_booking uuid_text tenant input booking fresh now s).1.bookings
  create_booking-Apart tenant input booking fresh now s h =
      elim (create_booking-bookings tenant input booking fresh now s) [
        | inl same ↦ rw same h
        | inr pushed ↦ rw pushed.1 (
            Apart-push clash s.bookings (new_booking tenant input booking)
              (λ b. clash_flip (new_booking tenant input booking) b) h pushed.0)
      ]

  -- A call that returned a booking's id, repeated with the same input, returns that id again and
  -- changes nothing, whatever ids and time it is given.
  pub create_booking_again :
      (tenant : Uuid) (input : BookingCreationInput) (booking fresh : Uuid) (now : Instant)
      (booking' fresh' : Uuid) (now' : Instant) (s : State) {id : Uuid}
      → (create_booking uuid_text tenant input booking fresh now s).0 ≡ ok id
      → let s' = (create_booking uuid_text tenant input booking fresh now s).1 in
        create_booking uuid_text tenant input booking' fresh' now' s' ≡ (ok id, s')
  unfolding create_booking book_slot apply_booking require_customer_and_lead
  create_booking_again tenant input booking fresh now booking' fresh' now' s h = ground (
    arith,
    eq_refl input.idempotency_key,
    find?-append_new (is_booking_key tenant input.idempotency_key) s.bookings
        (new_booking tenant input booking ∷ []),
  )
