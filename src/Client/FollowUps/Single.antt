-- ===== src/Client/FollowUps/Single.antt =====
-- Never two follow-ups of one scenario wait in one conversation.
use closer_v.Prelude.{
  ◌≤◌, Bool, true, ◌&&◌, ◌==◌, ◌≡◌, refl, sym, ◌∙◌, inl, inr, Option, none, some, List, head?,
  arith, Bool-cases,
}
use closer_v.Domain.Values.{Uuid, Key, Instant}
use closer_v.Client.Kinds.{FollowUpScenario}
use closer_v.Client.Entities.{Conversation, ScheduledFollowUp}
use closer_v.Client.Rules.{Checked, passed, refused}
use closer_v.Client.Repository.{put, find_all}
use closer_v.Client.Repository.Counts.{count, count_none, count-put, count-put_other}
use closer_v.Client.Database.{
  Database, in_scheduled_follow_ups, save_in-own, scheduled_follow_up_entity,
  business_settings_entity,
}
use closer_v.Client.FollowUps.Scenario.{same_scenario}
use closer_v.Client.FollowUps.Schedule.{
  ScheduleFollowUpInput, is_same_follow_up, new_scheduled, keep_or_save, schedule_checked,
  check_schedule, schedule,
}

-- A follow-up of the scenario that waits in the conversation.
abbrev pub is_waiting : Uuid → Uuid → FollowUpScenario → ScheduledFollowUp → Bool
is_waiting business conversation scenario f =
    f.business_id == business && is_same_follow_up conversation scenario f

-- At most one follow-up of each scenario waits in each conversation.
abbrev pub IsSingle : List ScheduledFollowUp → Type 0
IsSingle fs =
    (business conversation : Uuid) (scenario : FollowUpScenario)
    → count (is_waiting business conversation scenario) fs ≤ 1

same_scenario_eq : (s t : FollowUpScenario) → same_scenario s t ≡ true → s ≡ t
same_scenario_eq s t h = ground (arith, h)

-- A follow-up that is written where none waits.
put-IsSingle :
    (b c : Uuid) (s : FollowUpScenario) (f : ScheduledFollowUp) (fs : List ScheduledFollowUp)
    → f.business_id ≡ b
    → f.conversation_id ≡ c
    → f.scenario ≡ s
    → count (is_waiting b c s) fs ≡ 0
    → IsSingle fs
    → IsSingle (put b f fs)
put-IsSingle b c s f fs eb ec es empty h b' c' s' = elim (Bool-cases (is_waiting b' c' s' f)) [
  | inr other ↦
      let k = count-put_other (is_waiting b' c' s') b f fs other in
      let l = h b' c' s' in omega (arith, k, l)
  | inl same ↦
      let kb : b ≡ b' = sym eb ∙ ground (arith, same) in
      let kc : c ≡ c' = sym ec ∙ ground (arith, same) in
      let ks : s ≡ s' = sym es ∙ same_scenario_eq f.scenario s' (ground (arith, same)) in
      let none_there : count (is_waiting b' c' s') fs ≡ 0 = rw (sym kb, sym kc, sym ks) empty in
      let k = count-put (is_waiting b' c' s') b f fs in omega (arith, k, none_there)
]

module _ (id_text : Uuid → Key) (input : ScheduleFollowUpInput) (fresh : Uuid) (now : Instant)
    (d : Database) where
  keep_or_save-IsSingle :
      (c : Conversation) (o : Option ScheduledFollowUp)
      → head? (
          find_all input.business_id
            (is_same_follow_up input.conversation_id input.scenario)
            d.scheduled_follow_ups)
        ≡ o
      → IsSingle d.scheduled_follow_ups
      → IsSingle (keep_or_save id_text input c fresh now o d).1.scheduled_follow_ups
  keep_or_save-IsSingle c (some existing) e h = h
  keep_or_save-IsSingle c none e h =
      let f = new_scheduled id_text input c fresh now in
      rw (save_in-own in_scheduled_follow_ups input.business_id f d refl) (
        put-IsSingle input.business_id input.conversation_id input.scenario f d.scheduled_follow_ups
          refl refl refl
          (count_none (is_same_follow_up input.conversation_id input.scenario) input.business_id
            d.scheduled_follow_ups e)
          h)

  schedule_checked-IsSingle :
      (c : Checked Conversation)
      → IsSingle d.scheduled_follow_ups
      → IsSingle (schedule_checked id_text input fresh now c d).1.scheduled_follow_ups
  schedule_checked-IsSingle (refused e) h = h
  schedule_checked-IsSingle (passed c) h = keep_or_save-IsSingle c _ refl h

  pub schedule-IsSingle :
      IsSingle d.scheduled_follow_ups
      → IsSingle (schedule id_text input fresh now d).1.scheduled_follow_ups
  unfolding schedule
  schedule-IsSingle h = schedule_checked-IsSingle (check_schedule input d) h
