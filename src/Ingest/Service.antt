-- ===== src/Ingest/Service.antt =====
-- app/ingest/service.py: the refresh of a source, from its feed URL to its items and its status.
-- The parsers and the normaliser are arguments, and so is whether the database commits a batch.
pub mod Isolation
use sre_tab.Common.{
  length, Text, select, ℕ, ◌-◌, ◌*◌, Bool, true, false, Option, some, List, [], ◌∷◌,
}
use sre_tab.Models.{day}
use sre_tab.Ingest.Outcomes.{IngestError, other_error, Outcome, returned, raised, ◌>>=◌}
use sre_tab.Ingest.UrlGuard.{Libraries}
use sre_tab.Ingest.Fetch.{FetchSettings, Limiter, Hop, FetchResult, Fetch, fetch}
use sre_tab.Ingest.Store.{ItemStore, NormalisedItem, upsert_items}
use sre_tab.Ingest.Store.Icon.{record_discovered_icon}
use sre_tab.Ingest.Store.Retention.{prune_feed_items}
use sre_tab.Ingest.Status.{Status, Registry, Persistence, is_due, record_success, record_failure}

-- `SourceRef`
pub record SourceRef : Type 0 where
  pub id : ℕ
  pub slug : Text
  pub feed_url : Text
  pub refresh_minutes : ℕ
  pub topic_ids : List ℕ

-- `ParsedFeed` after the normaliser: its usable items, and its artwork if that is safe.
pub record UsableFeed : Type 0 where
  pub items : List NormalisedItem
  pub icon_url : Option Text

-- What a service works with. `usable` is the parser of the feed URL followed by
-- `normalise_entries`, with the moment of the fetch and the oldest time that is allowed.
pub record Service : Type 0 where
  pub libraries : Libraries
  pub settings : FetchSettings
  pub min_interval : ℕ
  pub feed_retention_days : ℕ
  pub usable : Text → List ℕ → ℕ → ℕ → Outcome UsableFeed
  pub detect_language : Text → Option Text → Option Text
  pub topics_for_url : Text → List Text
  pub error_class : IngestError → Text
  pub detail : IngestError → Text

-- What happens during a refresh: the network, the monotonic clock at its start, whether the batch is
-- committed, and whether the database answers the registry.
pub record Weather : Type 0 where
  pub hops : ℕ → Hop
  pub started : ℕ
  pub commits : Bool
  pub persistence : Persistence

-- The tables of the items with `source_status`, the registry's memory, and the rate limiter.
pub record State : Type 0 where
  pub store : ItemStore
  pub memory : List Status
  pub last : Limiter

-- `_retention_cutoff`
unfoldable pub retention_cutoff : Service → ℕ → ℕ
retention_cutoff service moment = moment - service.feed_retention_days * day

-- The registry on the tables, and back.
abbrev pub registry_of : State → Registry
registry_of state = record { statuses = state.memory; rows = state.store.statuses }

abbrev pub with_registry : State → Registry → State
with_registry state registry = record {
  store = record state.store { statuses = registry.rows };
  memory = registry.statuses;
  last = state.last;
}

-- `_store` before its commit: the items of the batch, and the artwork.
unfoldable pub stored : Service → SourceRef → UsableFeed → ℕ → ItemStore → ItemStore × ℕ
unfolding upsert_items record_discovered_icon
stored service source feed moment store =
    let (after, inserted) =
      upsert_items service.detect_language service.topics_for_url source.id feed.items
        source.topic_ids moment store in
    (
      record after { statuses = (record_discovered_icon source.id feed.icon_url after.statuses).0 },
      inserted,
    )

-- `_store`: the number of new items, or the error of the database.
unfoldable pub commit :
    Service → SourceRef → Bool → UsableFeed → ℕ → ItemStore → Outcome (ItemStore × ℕ)
unfolding stored
commit service source false feed moment store = raised other_error
commit service source true feed moment store = returned (stored service source feed moment store)

-- The body of the `try` of `refresh_source`, from what the fetch returned: the tables, the number of
-- usable items, and the number of new ones.
unfoldable pub taken_in :
    Service → SourceRef → Bool → ℕ → ItemStore → Outcome FetchResult → Outcome (ItemStore × ℕ × ℕ)
unfolding retention_cutoff commit
taken_in service source commits moment store fetched = do
  result ← fetched
  feed ← service.usable source.feed_url result.content moment (retention_cutoff service moment)
  batch ← commit service source commits feed moment store
  returned (batch.0, length feed.items, batch.1)

-- What is recorded of the outcome.
unfoldable pub recorded :
    Service → SourceRef → Persistence → ℕ → State → Outcome (ItemStore × ℕ × ℕ) → State × Status
unfolding record_success record_failure
recorded service source persistence moment state (raised e) =
    let (registry, status) =
      record_failure persistence source.id source.slug source.refresh_minutes
        (service.error_class e) (service.detail e) moment (registry_of state) in
    (with_registry state registry, status)
recorded service source persistence moment state (returned (store, item_count, inserted)) =
    let kept : State = record { store = store; memory = state.memory; last = state.last } in
    let (registry, status) =
      record_success persistence source.id source.slug source.refresh_minutes item_count inserted
        moment (registry_of kept) in
    (with_registry kept registry, status)

-- The fetch of a source: its own feed URL is all that is allowed.
unfoldable pub fetch_source : Service → SourceRef → Weather → Limiter → Fetch
unfolding fetch
fetch_source service source weather last =
    fetch service.libraries service.settings service.min_interval (source.feed_url ∷ [])
      weather.hops last weather.started source.feed_url

-- `refresh_source`
unfoldable pub refresh_source : Service → SourceRef → Weather → ℕ → State → State × Status
unfolding fetch_source taken_in recorded
refresh_source service source weather moment state =
    let run = fetch_source service source weather state.last in
    recorded service source weather.persistence moment
      (record { store = state.store; memory = state.memory; last = run.last })
      (taken_in service source weather.commits moment state.store run.outcome)

-- `refresh_all`, with the weather and the moment of each refresh.
unfoldable pub refresh_all : Service → List (SourceRef × Weather × ℕ) → State → State × List Status
unfolding refresh_source
refresh_all service [] state = (state, [])
refresh_all service ((source, weather, moment) ∷ sources) state =
    let (after, status) = refresh_source service source weather moment state in
    let (final, statuses) = refresh_all service sources after in (final, status ∷ statuses)

-- `prune`: the tables, and the number of items removed.
unfoldable pub prune : Service → ℕ → State → State × ℕ
unfolding retention_cutoff prune_feed_items
prune service moment state =
    let (store, removed) = prune_feed_items (retention_cutoff service moment) state.store in
    (record { store = store; memory = state.memory; last = state.last }, removed)

-- `due_sources`, of the enabled sources.
unfoldable pub due_sources : Persistence → ℕ → List SourceRef → State → List SourceRef
unfolding is_due select
due_sources persistence moment sources state =
    select
      (λ source.
        is_due persistence source.id (some source.refresh_minutes) moment (registry_of state))
      sources
