-- ===== src/Browsing/Pages.antt =====
-- `browse` of apps/api/app/services/web_browser.py: pages within the daily limit, each with a log. The
-- network, the extraction of text and the summaries are parameters, and so is what the database's
-- driver makes of a bound with a zone on a column without one.
use Prim.Native.String.{◌++◌ as str_append}
use replica_ai.Common.{
  ℕ, ◌-◌, ◌%◌, String, Bool, true, false, not, ◌&&◌, ◌||◌, Option, none, some, List, [], ◌∷◌, ◌++◌,
  first, count, str_eq, is_blank, ltb, leb, if◌then◌else◌,
}
use replica_ai.Common.Raise.{Exception, Result, ok, err}
use replica_ai.Common.Text.{take_chars, length_of, decimal}
use replica_ai.Common.Time.{day}
use replica_ai.Browsing.Domains.{Urls, DomainRule, starts_with, check_domain_allowed}

-- A row of `browse_configs`.
pub record BrowseConfig : Type 0 where
  pub id : String
  pub owner_id : String
  pub enabled : Bool
  pub auto_summarize : Bool
  pub max_pages_per_day : ℕ

-- A row of `browse_logs`.
pub record BrowseLog : Type 0 where
  pub id : String
  pub owner_id : String
  pub url : String
  pub title : Option String
  pub content_text : Option String
  pub summary : Option String
  pub status_code : Option ℕ
  pub error : Option String
  pub content_length : ℕ
  pub fetch_ms : ℕ
  pub created_at : ℕ

-- The result of a page.
pub record Page : Type 0 where
  pub id : String
  pub url : String
  pub title : Option String
  pub content : Option String
  pub summary : Option String
  pub status_code : Option ℕ
  pub content_length : ℕ
  pub fetch_ms : ℕ
  pub error : Option String

pub record Browsing : Type 0 where
  pub configs : List BrowseConfig
  pub rules : List DomainRule
  pub logs : List BrowseLog

-- What `client.get` answers, after the redirects that the client follows, at most five, with no test
-- of their domains: a status with the text and the number of bytes, or an exception: a
-- timeout, another `httpx.HTTPError`, or one of another kind.
pub data Fetched : Type 0 where
  answered : ℕ → String → ℕ → Fetched
  timed_out : Fetched
  http_error : String → Fetched
  raised : Exception → Fetched

pub record Web : Type 0 where
  pub urls : Urls
  -- `settings.browse_max_page_bytes`
  pub max_page_bytes : ℕ
  -- `_extract_readable_content`: the text and the title of a page with its URL.
  pub readable : String → String → Result (String × Option String)
  pub summarize : String → Result String
  -- What the driver raises where an instant with a zone is compared with a column without one, as
  -- the count of the day does: asyncpg refuses to encode such a bound. `none` is a driver that
  -- compares the two as instants.
  pub zone_error : Option Exception
  -- The duration of the request.
  pub fetch_ms : ℕ

abbrev pub has_owner : String → BrowseConfig → Bool
has_owner owner_id c = str_eq c.owner_id owner_id

abbrev new_config : String → String → BrowseConfig
new_config id owner_id = record {
  id = id;
  owner_id = owner_id;
  enabled = true;
  auto_summarize = true;
  max_pages_per_day = 50;
}

unfoldable pub ensure_browse_config :
    String → String → List BrowseConfig → BrowseConfig × List BrowseConfig
ensure_browse_config id owner_id configs = elim (first (has_owner owner_id) configs) [
  | some c ↦ (c, configs)
  | none ↦ let c = new_config id owner_id in (c, configs ++ c ∷ [])
]

abbrev pub day_start : ℕ → ℕ
day_start now = now - now % day

abbrev pub of_today : String → ℕ → BrowseLog → Bool
of_today owner_id now log = str_eq log.owner_id owner_id && leb (day_start now) log.created_at

-- The pages of an owner on the day of `now`.
abbrev pub pages_today : String → ℕ → List BrowseLog → ℕ
pages_today owner_id now logs = count (of_today owner_id now) logs

-- The answer to the count.
abbrev pub count_rows : Option Exception → ℕ → Result ℕ
count_rows none n = ok n
count_rows (some e) n = err e

-- `_make_error_result`
unfoldable pub error_page : String → String → String → Page
error_page id url message = record {
  id = id;
  url = url;
  title = none;
  content = none;
  summary = none;
  status_code = none;
  content_length = 0;
  fetch_ms = 0;
  error = some message;
}

-- `_log_to_result`
unfoldable pub page_of : BrowseLog → Page
page_of log = record {
  id = log.id;
  url = log.url;
  title = log.title;
  content = log.content_text;
  summary = log.summary;
  status_code = log.status_code;
  content_length = log.content_length;
  fetch_ms = log.fetch_ms;
  error = log.error;
}

-- A log without content, for what went wrong.
abbrev pub failed_log : Web → ℕ → String → String → String → Option ℕ → String → BrowseLog
failed_log w now id owner_id url status message = record {
  id = id;
  owner_id = owner_id;
  url = url;
  title = none;
  content_text = none;
  summary = none;
  status_code = status;
  error = some message;
  content_length = 0;
  fetch_ms = w.fetch_ms;
  created_at = now;
}

-- The log is written, and the page is made of it.
abbrev pub logged : BrowseLog → Browsing → Result Page × Browsing
logged log s = (ok (page_of log), record s { logs = s.logs ++ log ∷ [] })

-- A summary where it is wanted, and where the model does not raise.
abbrev pub summary_of : Web → Bool → String → Option String
summary_of w wanted text =
    if wanted && not (is_blank text)
    then (elim (w.summarize (take_chars 10000 text)) [ err e ↦ none | ok summary ↦ some summary ])
    else none

-- `https://` in front, where the URL has no scheme.
unfoldable pub with_scheme : String → String
with_scheme url =
    if starts_with "http://" url || starts_with "https://" url
    then url
    else str_append "https://" url

module _ (w : Web) (now : ℕ) (log_id owner_id : String) where
  abbrev pub read_page : Bool → String → ℕ → String → ℕ → Browsing → Result Page × Browsing
  read_page wanted url status content bytes s =
      let kept =
        if ltb w.max_page_bytes bytes then take_chars w.max_page_bytes content else content in
      elim (w.readable kept url) [
        | err e ↦ (err e, s)
        | ok (text, title) ↦
            let trimmed = take_chars 100000 text in
            logged
              (record {
                id = log_id;
                owner_id = owner_id;
                url = url;
                title = title;
                content_text = some trimmed;
                summary = summary_of w wanted trimmed;
                status_code = some status;
                error = none;
                content_length = length_of trimmed;
                fetch_ms = w.fetch_ms;
                created_at = now;
              })
              s
      ]

  unfoldable pub handle_fetched : Bool → String → Fetched → Browsing → Result Page × Browsing
  handle_fetched wanted url (answered status content bytes) s =
      if leb 400 status
      then logged
          (failed_log w now log_id owner_id url (some status) (str_append "HTTP " (decimal status)))
          s
      else read_page wanted url status content bytes s
  handle_fetched wanted url timed_out s =
      logged (failed_log w now log_id owner_id url none "Request timed out") s
  handle_fetched wanted url (http_error message) s =
      logged (failed_log w now log_id owner_id url none (take_chars 500 message)) s
  handle_fetched wanted url (raised e) s = (err e, s)

  abbrev pub after_check :
      (String → Fetched)
      → Bool
      → String
      → Result (Bool × String)
      → Browsing
      → Result Page × Browsing
  after_check fetch wanted url (err e) s = (err e, s)
  after_check fetch wanted url (ok (false, reason)) s = (ok (error_page log_id url reason), s)
  after_check fetch wanted url (ok (true, reason)) s = handle_fetched wanted url (fetch url) s

  -- From the answer to the count on.
  abbrev pub after_count :
      (String → Fetched)
      → Bool
      → String
      → BrowseConfig
      → Result ℕ
      → Browsing
      → Result Page × Browsing
  after_count fetch summarize url c (err e) s = (err e, s)
  after_count fetch summarize url c (ok today) s =
      if leb c.max_pages_per_day today
      then (ok (error_page log_id url "Daily browsing limit reached."), s)
      else after_check fetch (summarize && c.auto_summarize) url
          (check_domain_allowed w.urls owner_id url s.rules) s

  -- The body of `browse` with the configuration.
  abbrev pub browse_with :
      (String → Fetched) → Bool → String → BrowseConfig → Browsing → Result Page × Browsing
  browse_with fetch summarize url c s =
      if not c.enabled
      then (ok (error_page log_id url "Web browsing is disabled."), s)
      else after_count fetch summarize url c
          (count_rows w.zone_error (pages_today owner_id now s.logs)) s

  unfoldable pub browse :
      (String → Fetched) → String → Bool → String → Browsing → Result Page × Browsing
  browse fetch config_id summarize url s =
      let (c, configs) = ensure_browse_config config_id owner_id s.configs in
      browse_with fetch summarize (with_scheme url) c (record s { configs = configs })
