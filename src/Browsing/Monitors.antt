-- ===== src/Browsing/Monitors.antt =====
-- The page monitors of apps/api/app/services/web_browser.py, which a background task checks.
use Prim.Native.String.{◌++◌ as str_append}
use replica_ai.Common.{
  ℕ, ◌+◌, String, Bool, true, false, not, ◌&&◌, Option, none, some, List, [], ◌∷◌, ◌++◌, select,
  first, delete_first, str_eq, truthy, or_default, ltb, if◌then◌else◌,
}
use replica_ai.Common.Raise.{Result, ok, err}
use replica_ai.Browsing.Domains.{Urls}
use replica_ai.Browsing.Pages.{with_scheme}

pub data MonitorStatus : Type 0 where
  active paused triggered : MonitorStatus

-- A row of `page_monitors`; the interval is in microseconds.
pub record PageMonitor : Type 0 where
  pub id : String
  pub owner_id : String
  pub url : String
  pub keywords : Option (List String)
  pub interval : ℕ
  pub status : MonitorStatus
  pub last_content_hash : Option String
  pub last_checked_at : Option ℕ
  pub last_triggered_at : Option ℕ
  pub trigger_reason : Option String
  pub check_count : ℕ

-- The text of a page that was fetched, the names of strings, and the hash of a text (the first 16
-- digits of its SHA-256).
pub record Watcher : Type 0 where
  pub urls : Urls
  pub readable : String → String → Result (String × Option String)
  pub hash : String → String

abbrev keywords_or_none : List String → Option (List String)
keywords_or_none [] = none
keywords_or_none (k ∷ keywords) = some (k ∷ keywords)

unfoldable pub create_monitor :
    String → String → String → List String → ℕ → List PageMonitor → PageMonitor × List PageMonitor
create_monitor id owner_id url keywords interval monitors =
    let m : PageMonitor = record {
      id = id;
      owner_id = owner_id;
      url = with_scheme url;
      keywords = keywords_or_none keywords;
      interval = interval;
      status = active;
      last_content_hash = none;
      last_checked_at = none;
      last_triggered_at = none;
      trigger_reason = none;
      check_count = 0;
    } in
    (m, monitors ++ m ∷ [])

abbrev is_monitor : String → String → PageMonitor → Bool
is_monitor monitor_id owner_id m = str_eq m.id monitor_id && str_eq m.owner_id owner_id

unfoldable pub get_monitor : String → String → List PageMonitor → Option PageMonitor
get_monitor monitor_id owner_id monitors = first (is_monitor monitor_id owner_id) monitors

unfoldable pub delete_monitor : String → String → List PageMonitor → Bool × List PageMonitor
unfolding get_monitor
delete_monitor monitor_id owner_id monitors = elim (get_monitor monitor_id owner_id monitors) [
  | none ↦ (false, monitors)
  | some m ↦ (true, delete_first (is_monitor monitor_id owner_id) monitors)
]

-- The values that an update gives; what is `None` stays as it is.
pub record MonitorUpdate : Type 0 where
  pub keywords : Option (List String)
  pub interval : Option ℕ
  pub status : Option MonitorStatus

unfoldable pub update_monitor : MonitorUpdate → PageMonitor → PageMonitor
update_monitor u m = record m {
  keywords = elim u.keywords [ none ↦ m.keywords | some keywords ↦ some keywords ];
  interval = or_default m.interval u.interval;
  status = or_default m.status u.status;
}

abbrev pub is_active : MonitorStatus → Bool
is_active active = true
is_active paused = false
is_active triggered = false

-- Whether the time of the next check has come.
unfoldable pub is_due : ℕ → PageMonitor → Bool
is_due now m = elim m.last_checked_at [ none ↦ true | some t ↦ not (ltb now (t + m.interval)) ]

abbrev found_in : Urls → String → String → Bool
found_in u text keyword = u.within (u.lower keyword) (u.lower text)

abbrev join : List String → String
join [] = ""
join (x ∷ []) = x
join (x ∷ y ∷ rest) = str_append x (str_append ", " (join (y ∷ rest)))

abbrev keywords_reason : List String → Option String
keywords_reason [] = none
keywords_reason (k ∷ found) = some (str_append "Keywords found: " (join (k ∷ found)))

-- The comparison with the hash of the last check: the reason, and the monitor.
abbrev pub compare_hash : String → PageMonitor → Option String × PageMonitor
compare_hash content_hash m =
    if not (truthy m.last_content_hash)
    then (none, record m { last_content_hash = some content_hash })
    else if str_eq (or_default "" m.last_content_hash) content_hash
    then (none, m)
    else (
      some "Page content changed significantly.",
      record m { last_content_hash = some content_hash },
    )

module _ (w : Watcher) where
  open w use {urls, readable, hash}

  abbrev pub check_text : String → PageMonitor → Option String × PageMonitor
  check_text text m =
      elim (keywords_reason (select (found_in urls text) (or_default [] m.keywords))) [
        | some reason ↦ (some reason, m)
        | none ↦ compare_hash (hash text) m
      ]

  -- `_check_single_monitor`; `none` is a request that raised. The extraction of the text may raise.
  unfoldable pub check_single_monitor :
      Option String → PageMonitor → Result (Option String × PageMonitor)
  check_single_monitor none m = ok (none, m)
  check_single_monitor (some page) m = elim (readable page m.url) [
    | err e ↦ err e
    | ok (text, title) ↦ ok (check_text text m)
  ]

  abbrev checked : ℕ → PageMonitor → PageMonitor
  checked now m = record m { last_checked_at = some now; check_count = m.check_count + 1 }

  abbrev trigger : ℕ → String → PageMonitor → PageMonitor
  trigger now reason m = record m {
    status = triggered;
    last_triggered_at = some now;
    trigger_reason = some reason;
  }

  abbrev pub record_check :
      ℕ → PageMonitor → Result (Option String × PageMonitor) → Bool × PageMonitor
  record_check now m (err e) = (false, m)
  record_check now m (ok (none, m')) = (false, checked now m')
  record_check now m (ok (some reason, m')) = (true, trigger now reason (checked now m'))

  -- One round of the loop: whether an alert was triggered, and the monitor.
  unfoldable pub check_monitor : (String → Option String) → ℕ → PageMonitor → Bool × PageMonitor
  check_monitor fetch now m =
      if not (is_active m.status)
      then (false, m)
      else if not (is_due now m)
      then (false, m)
      else record_check now m (check_single_monitor (fetch m.url) m)

  -- The number of alerts, and the monitors.
  unfoldable pub check_monitors :
      (String → Option String) → ℕ → List PageMonitor → ℕ × List PageMonitor
  check_monitors fetch now [] = (0, [])
  check_monitors fetch now (m ∷ monitors) =
      let (alert, m') = check_monitor fetch now m in
      let (alerts, monitors') = check_monitors fetch now monitors in
      ((if alert then 1 else 0) + alerts, m' ∷ monitors')
