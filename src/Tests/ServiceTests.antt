-- ===== src/Tests/ServiceTests.antt =====
-- app/ingest/service.py on one source, whose host answers at an address inside the server's network.
use sre_tab.Common.{
  leb, eqb, if◌then◌else◌, Text, codes, text_beq, text_eq, nat_eq, ◌==◌, select, scalar, exists_row,
  count_rows, upsert, every, ℕ, ◌+◌, ◌*◌, ◌≡◌, refl, true, false, none, some, List, [], ◌∷◌, map,
}
use sre_tab.Models.{second}
use sre_tab.Ingest.Outcomes.{returned}
use sre_tab.Ingest.Addresses.{v4}
use sre_tab.Ingest.UrlGuard.{Libraries, answered}
use sre_tab.Ingest.Fetch.{timed_out}
use sre_tab.Ingest.Status.{Status, answers}
use sre_tab.Ingest.Service.{SourceRef, Service, Weather, State, refresh_all, due_sources}
use sre_tab.Scheduler.{
  SchedulerService, Turn, acquired, taken, tick, prune_job, Check, raised_error, readiness,
  register, all_ok,
}
use sre_tab.Scheduler.Ready.{is_acquired, tick_lem}
use sre_tab.Ingest.Service.Isolation.{refresh_all_ids}

abbrev feed_url : Text
feed_url = codes "https://feeds.dev.org/a"

abbrev libraries : Libraries
libraries = record {
  parse_url = λ text. some (record {
    spelled = text;
    scheme = codes "https";
    userinfo = [];
    port = none;
    raw_host = codes "feeds.dev.org";
    path = codes "/a";
  });
  copy_with_host = λ url host. some (record url { raw_host = host; port = none });
  join = λ url location. none;
  ip_address = λ text. if text == codes "10.0.0.1" then some (v4 167772161) else none;
  ipv6_address = λ text. none;
  show_address = λ ip. [];
  predicates = record {
    is_unspecified = λ ip. false;
    is_loopback = λ ip. false;
    is_link_local = λ ip. false;
    is_multicast = λ ip. false;
    is_private = λ ip. true;
    is_reserved = λ ip. false;
    is_global = λ ip. false;
  };
}

abbrev service : Service
service = record {
  libraries = libraries;
  settings = record {
    source_fetch_timeout_microseconds = 10000000;
    source_fetch_max_bytes = 100;
    source_fetch_max_redirects = 3;
  };
  min_interval = 1000000;
  feed_retention_days = 90;
  usable = λ url content moment oldest. returned (record { items = []; icon_url = none });
  detect_language = λ title summary. none;
  topics_for_url = λ url. [];
  error_class = λ e. codes "UnsafeTargetError";
  detail = λ e. [];
}

abbrev source_a : SourceRef
source_a = record {
  id = 1;
  slug = codes "a";
  feed_url = feed_url;
  refresh_minutes = 30;
  topic_ids = [];
}

abbrev weather : Weather
weather = record {
  hops = λ n. record {
    before_lookup = 1;
    before_wait = 2;
    before_request = 3;
    resolver = λ host. answered (codes "10.0.0.1" ∷ []);
    answer = λ target. timed_out;
  };
  started = 0;
  commits = true;
  persistence = answers;
}

abbrev state : State
state = record {
  store = record {
    items = [];
    next_id = 1;
    item_topics = [];
    topics = [];
    statuses = [];
    bookmarks = [];
    reads = [];
  };
  memory = [];
  last = [];
}

refresh_all_ids_example :
    map
      (λ (status : Status). status.source_id)
      (refresh_all service ((source_a, weather, 500) ∷ (source_a, weather, 600) ∷ []) state).1
    ≡ 1 ∷ 1 ∷ []
refresh_all_ids_example =
    refresh_all_ids service ((source_a, weather, 500) ∷ (source_a, weather, 600) ∷ []) state

abbrev scheduler : SchedulerService
scheduler = record { enabled = true; started = true; running = true; last_tick_at = none }

-- One source, whose lock another replica has, and one whose lock is free.
abbrev turns : ℕ → Turn
turns id = if eqb id 1 then taken else acquired weather

abbrev both : List SourceRef
both = source_a ∷ record source_a { id = 2; slug = codes "b" } ∷ []

one_refreshed : (tick service answers turns 500 600 both scheduler state).1 ≡ 1
unfolding tick exists_row text_beq count_rows select scalar
one_refreshed = refl

nothing_pruned : (prune_job service false 500 state).1 ≡ 0
unfolding prune_job
nothing_pruned = refl

not_ready :
    all_ok (register (codes "scheduler") raised_error ((codes "db", Check.answered true) ∷ []))
    ≡ false
unfolding all_ok register every text_beq upsert
not_ready = refl

tick_lem_example :
    ((tick service answers turns 500 600 both scheduler state).1
      ≡ count_rows (λ source. is_acquired (turns source.id)) (due_sources answers 500 both state))
    × (readiness (tick service answers turns 500 600 both scheduler state).0.0 300000600
        ≡ leb 300000600 (600 + 300 * second))
tick_lem_example =
    tick_lem service answers turns 500 600 300000600 both scheduler state refl refl refl
