-- ===== src/Client/Timeline/Unique.antt =====
-- An operation key stands for one activity.
use text.Mathlib.TextEquality.{eq_iff}
use closer_v.Prelude.{
  ◌≤◌, Bool, true, false, ◌&&◌, ◌==◌, ◌≡◌, refl, sym, inl, inr, Option, none, some, List, head?,
  arith, Bool-cases,
}
use closer_v.Domain.Values.{Uuid, Key, Instant}
use closer_v.Client.Entities.{Activity}
use closer_v.Client.Repository.{find_all}
use closer_v.Client.Repository.Counts.{count, count_none, count-put, count-put_other}
use closer_v.Client.Database.{Database, in_activities, save_in-own, activity_entity}
use closer_v.Client.Text.{is_empty_text, has_text}
use closer_v.Client.Timeline.{
  RecordActivityInput, is_same_activity, new_activity, existing_activity, replay_or_save,
  record_activity,
}

abbrev pub is_keyed : Uuid → Key → Activity → Bool
is_keyed business key a = a.business_id == business && has_text key a.operation_key

-- No two activities of a business have one operation key.
abbrev pub IsUnique : List Activity → Type 0
IsUnique as_ =
    (business : Uuid) (key : Key)
    → is_empty_text key ≡ false
    → count (is_keyed business key) as_ ≤ 1

module _ (input : RecordActivityInput) (fresh : Uuid) (now : Instant) (d : Database)
    (h : IsUnique d.activities) where
  -- A key that the new activity has is new.
  none_yet :
      (o : Option Key) (b : Uuid) (key : Key)
      → existing_activity input.business_id o d ≡ none
      → is_empty_text key ≡ false
      → (input.business_id == b && has_text key o) ≡ true
      → count (is_keyed b key) d.activities ≡ 0
  none_yet none b key missing full same = absurd (ground (arith, same))
  none_yet (some k) b key missing full same =
      let same_business : input.business_id ≡ b = ground (arith, same) in
      let same_key : k ≡ key = ground (arith, same, eq_iff k key) in
      rw (sym same_business, sym same_key)
        (count_none (λ a. has_text k a.operation_key) input.business_id d.activities
          (opened (sym same_key)))
    where
      opened :
          key ≡ k
          → head? (find_all input.business_id (λ a. has_text k a.operation_key) d.activities) ≡ none
      opened e = let k_full : is_empty_text k ≡ false = rw (sym e) full in rw k_full at missing

  kept_or_saved :
      (o : Option Activity)
      → existing_activity input.business_id input.operation_key d ≡ o
      → IsUnique (replay_or_save input fresh now o d).1.activities
  kept_or_saved (some a) e = elim (Bool-cases (is_same_activity input a)) [
    | inl t ↦ rw t h
    | inr t ↦ rw t h
  ]
  kept_or_saved none e =
      rw (save_in-own in_activities input.business_id (new_activity input fresh now) d refl)
        (λ b key full. elim (Bool-cases (is_keyed b key (new_activity input fresh now))) [
          | inl t ↦
              let k = none_yet input.operation_key b key e full t in
              let l =
                count-put (is_keyed b key) input.business_id (new_activity input fresh now)
                  d.activities in
              omega (arith, k, l)
          | inr t ↦
              let k = h b key full in
              let l =
                count-put_other (is_keyed b key) input.business_id (new_activity input fresh now)
                  d.activities t in
              omega (arith, k, l)
        ])

-- An operation key stands for one activity: recording, whatever is recorded, keeps at most one activity
-- of a business for each key that is not empty.
pub record_activity-IsUnique :
    (input : RecordActivityInput) (fresh : Uuid) (now : Instant) (d : Database)
    → IsUnique d.activities
    → IsUnique (record_activity input fresh now d).1.activities
unfolding record_activity
record_activity-IsUnique input fresh now d h =
    kept_or_saved input fresh now d h (existing_activity input.business_id input.operation_key d)
      refl
