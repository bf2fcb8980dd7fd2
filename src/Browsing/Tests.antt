-- ===== src/Browsing/Tests.antt =====
-- The theorems on apps/api/app/services/web_browser.py at concrete pages, rules and monitors.
use replica_ai.Common.{List, ◌≡◌, refl, arith, String, true, none, some, [], ◌∷◌}
use replica_ai.Common.Raise.{ok}
use replica_ai.Common.Time.{days}
use replica_ai.Browsing.Domains.{Urls, extract_domain, blocked_by_default}
use replica_ai.Browsing.Pages.{Web, Fetched, answered, Browsing, BrowseConfig}
use replica_ai.Browsing.Monitors.{
  PageMonitor, MonitorStatus, Watcher, is_due, check_single_monitor, check_monitor, check_monitors,
}
use replica_ai.Browsing.Searches.{WebResult, search_web}
use replica_ai.Browsing.Limits.{IsWithin, search_web-IsWithin}
use replica_ai.Browsing.Refused.{Unfetched, blocked-Unfetched}
use replica_ai.Browsing.Idle.{second_round_idle}

-- Every URL is on the domain `host`.
abbrev on_host : String → Urls
on_host host = record {
  hostname = λ url. some host;
  within = λ x y. true;
  lower = λ s. s;
  strip = λ s. s;
}

abbrev web : String → Web
web host = record {
  urls = on_host host;
  max_page_bytes = 5000000;
  readable = λ page url. ok (page, none);
  summarize = λ text. ok "a summary";
  zone_error = none;
  fetch_ms = 20;
}

abbrev config : BrowseConfig
config = record {
  id = "c1";
  owner_id = "ann";
  enabled = true;
  auto_summarize = true;
  max_pages_per_day = 1;
}

abbrev browsing : Browsing
browsing = record { configs = config ∷ []; rules = []; logs = [] }

abbrev found : String → Fetched
found url = answered 200 "news" 4

abbrev engine : String → List WebResult
engine query =
    record { title = "News"; url = "https://example.org"; snippet = ""; summary = none }
    ∷ record { title = "More"; url = "https://example.org/more"; snippet = ""; summary = none }
    ∷ []

search_web-IsWithin_example :
    IsWithin
      (web "example.org")
      (days 3)
      "ann"
      config
      (search_web
        (web "example.org")
        (days 3)
        "ann"
        found
        engine
        "c2"
        (λ n. "log")
        "news"
        2
        browsing).1
search_web-IsWithin_example =
    search_web-IsWithin (web "example.org") (days 3) "ann" config found engine "c2" (λ n. "log")
      "news" 2 browsing (refl, omega arith)

blocked-Unfetched_example :
    Unfetched
      (web "login.auth0.com")
      (days 3)
      "log"
      "ann"
      found
      "c2"
      true
      "login.auth0.com"
      browsing
unfolding blocked_by_default extract_domain
blocked-Unfetched_example =
    blocked-Unfetched (web "login.auth0.com") (days 3) "log" "ann" found "c2" true "login.auth0.com"
      browsing refl

abbrev watcher : Watcher
watcher = record {
  urls = on_host "example.org";
  readable = λ page url. ok (page, none);
  hash = λ text. text;
}

abbrev monitor : PageMonitor
monitor = record {
  id = "m1";
  owner_id = "ann";
  url = "https://example.org";
  keywords = none;
  interval = days 1;
  status = MonitorStatus.active;
  last_content_hash = some "old";
  last_checked_at = some 0;
  last_triggered_at = none;
  trigger_reason = none;
  check_count = 0;
}

second_round_idle_example :
    check_monitors watcher
      (λ url. some "newer")
      (days 2)
      (check_monitors watcher (λ url. some "new") (days 2) (monitor ∷ [])).1
    ≡ (0, (check_monitors watcher (λ url. some "new") (days 2) (monitor ∷ [])).1)
second_round_idle_example =
    second_round_idle watcher (days 2) (λ url. some "new") (λ url. some "newer") (monitor ∷ [])
      (λ page url e raised. cc) (omega arith, tt)

-- The first round triggers the monitor.
triggered : (check_monitors watcher (λ url. some "new") (days 2) (monitor ∷ [])).0 ≡ 1
unfolding check_monitors check_monitor is_due check_single_monitor
triggered = refl
