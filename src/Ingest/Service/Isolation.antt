-- ===== src/Ingest/Service/Isolation.antt =====
-- What a refresh of app/ingest/service.py leaves behind, whatever goes wrong in it.
use sre_tab.Common.{
  eqb, Text, text_eq, nat_eq, eq_of_true, scalar_sound, merged, ℕ, ◌+◌, ◌≡◌, refl, ap, ◌∙◌, Option,
  none, some, List, [], ◌∷◌, map,
}
use sre_tab.Ingest.Outcomes.{Outcome, returned, raised}
use sre_tab.Ingest.Store.{ItemStore}
use sre_tab.Ingest.Status.{
  Status, Registry, Persistence, new_status, update, get, succeeded, failed, record_success,
  record_failure, known_before,
}
use sre_tab.Ingest.Service.{
  SourceRef, Service, Weather, State, registry_of, recorded, refresh_source, refresh_all,
}

-- The tables of the items are those of another, but for the status rows.
pub record SameItems (before after : ItemStore) : Type 0 where
  pub items : after.items ≡ before.items
  pub next_id : after.next_id ≡ before.next_id
  pub item_topics : after.item_topics ≡ before.item_topics
  pub bookmarks : after.bookmarks ≡ before.bookmarks
  pub reads : after.reads ≡ before.reads

-- A failure as the registry records it: one more than were known, with its class, and without
-- forgetting the last success.
pub record CountsFailure (persistence : Persistence) (source : SourceRef) (error_class : Text)
    (before : Registry) (status : Status) : Type 0 where
  pub failures : status.consecutive_failures ≡ (known_before persistence source.id before).0 + 1
  pub class_kept : status.last_error_class ≡ some error_class
  pub success_kept : status.last_success_at ≡ (known_before persistence source.id before).1

-- The entry that the registry changes.
abbrev entry_of : SourceRef → Registry → Status
entry_of source registry =
    record (merged (new_status source.id source.slug) (λ s. s) (get source.id registry)) {
      slug = source.slug;
    }

-- The entry that is changed is the source's own.
merged_id :
    (source_id : ℕ) (slug : Text) (found : Option Status) (registry : Registry)
    → get source_id registry ≡ found
    → (merged (new_status source_id slug) (λ s. s) found).source_id ≡ source_id
unfolding merged get
merged_id source_id slug none registry h = refl
merged_id source_id slug (some status) registry h =
    eq_of_true {K = ℕ} status.source_id source_id
      (scalar_sound (λ s. eqb s.source_id source_id) registry.statuses h)

failed_id :
    (refresh_minutes : ℕ) (error_class detail : Text) (moment : ℕ) (known : ℕ × Option ℕ)
    (status : Status)
    → (failed refresh_minutes error_class detail moment known status).source_id ≡ status.source_id
unfolding failed
failed_id refresh_minutes error_class detail moment (n, t) status = refl

recorded_id :
    (service : Service) (source : SourceRef) (persistence : Persistence) (moment : ℕ)
    (state : State) (outcome : Outcome (ItemStore × ℕ × ℕ))
    → (recorded service source persistence moment state outcome).1.source_id ≡ source.id
unfolding recorded record_failure record_success update succeeded
recorded_id service source persistence moment state (raised e) =
    failed_id source.refresh_minutes (service.error_class e) (service.detail e) moment
      (known_before persistence source.id (registry_of state)) (entry_of source (registry_of state))
    ∙ merged_id source.id source.slug (get source.id (registry_of state)) (registry_of state) refl
recorded_id service source persistence moment state (returned (store, count, inserted)) =
    merged_id source.id source.slug _
      (registry_of (record { store = store; memory = state.memory; last = state.last })) refl

-- A round of refreshes returns a status of every source, in the order of the sources, whatever goes
-- wrong in any of them.
pub refresh_all_ids :
    (service : Service) (sources : List (SourceRef × Weather × ℕ)) (state : State)
    → map (λ (status : Status). status.source_id) (refresh_all service sources state).1
      ≡ map (λ (entry : SourceRef × Weather × ℕ). entry.0.id) sources
unfolding refresh_all refresh_source
refresh_all_ids service [] state = refl
refresh_all_ids service ((source, weather, moment) ∷ sources) state =
    let after = refresh_source service source weather moment state in
    ap
      (λ id.
        id ∷ map (λ (status : Status). status.source_id) (refresh_all service sources after.0).1)
      (unfold refresh_source in recorded_id service source weather.persistence moment _ _)
    ∙ ap (λ ids. source.id ∷ ids) (refresh_all_ids service sources after.0)
