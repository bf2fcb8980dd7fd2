-- ===== src/Browsing/Refused.antt =====
-- The URLs that `browse` of apps/api/app/services/web_browser.py does not request.
use replica_ai.Common.{ℕ, ◌≡◌, refl, arith, String, Bool, true, false, ◌&&◌, List}
use replica_ai.Common.Raise.{Result, ok, err}
use replica_ai.Browsing.Domains.{
  Urls, DomainRule, extract_domain, blocked_by_default, check_domain_allowed,
}
use replica_ai.Browsing.Pages.{
  Web, Fetched, Browsing, BrowseConfig, browse, after_check, after_count, count_rows, pages_today,
  ensure_browse_config, with_scheme,
}

-- A verdict that lets a page pass.
abbrev pub lets_pass : Result (Bool × String) → Bool
lets_pass (err e) = false
lets_pass (ok (false, reason)) = false
lets_pass (ok (true, reason)) = true

module _ (w : Web) (now : ℕ) (log_id owner_id : String) where
  -- Nothing is fetched or logged: the outcome is the same for every network.
  abbrev pub Unfetched : (String → Fetched) → String → Bool → String → Browsing → Type 0
  Unfetched fetch config_id summarize url s =
      ((other : String → Fetched)
        → browse w now log_id owner_id fetch config_id summarize url s
          ≡ browse w now log_id owner_id other config_id summarize url s)
      × ((browse w now log_id owner_id fetch config_id summarize url s).1.logs ≡ s.logs)

  stopped :
      (fetch other : String → Fetched) (wanted : Bool) (url : String) (r : Result (Bool × String))
      (s : Browsing)
      → lets_pass r ≡ false
      → (after_check w now log_id owner_id fetch wanted url r s
          ≡ after_check w now log_id owner_id other wanted url r s)
        × ((after_check w now log_id owner_id fetch wanted url r s).1.logs ≡ s.logs)
  stopped fetch other wanted url (err e) s h = (refl, refl)
  stopped fetch other wanted url (ok (false, reason)) s h = (refl, refl)
  stopped fetch other wanted url (ok (true, reason)) s h = cc

  stopped_count :
      (fetch other : String → Fetched) (summarize : Bool) (url : String) (c : BrowseConfig)
      (r : Result ℕ) (s : Browsing)
      → lets_pass (check_domain_allowed w.urls owner_id url s.rules) ≡ false
      → (after_count w now log_id owner_id fetch summarize url c r s
          ≡ after_count w now log_id owner_id other summarize url c r s)
        × ((after_count w now log_id owner_id fetch summarize url c r s).1.logs ≡ s.logs)
  stopped_count fetch other summarize url c (err e) s h = (refl, refl)
  stopped_count fetch other summarize url c (ok today) s h =
      let halt =
        stopped fetch other (summarize && c.auto_summarize) url
          (check_domain_allowed w.urls owner_id url s.rules) s h in
      ground (arith, halt.0, halt.1)

  unfetched :
      (fetch : String → Fetched) (config_id : String) (summarize : Bool) (url : String)
      (s : Browsing)
      → lets_pass (check_domain_allowed w.urls owner_id (with_scheme url) s.rules) ≡ false
      → Unfetched fetch config_id summarize url s
  unfolding browse
  unfetched fetch config_id summarize url s h =
      let found = ensure_browse_config config_id owner_id s.configs in
      let s' : Browsing = record s { configs = found.1 } in
      let counted = count_rows w.zone_error (pages_today owner_id now s.logs) in
      let halt = λ (other : String → Fetched).
        stopped_count fetch other summarize (with_scheme url) found.0 counted s' h in
      (λ other. ground (arith, (halt other).0), ground (arith, (halt fetch).1))

blocked_refused :
    (u : Urls) (owner_id url : String) (rules : List DomainRule)
    → blocked_by_default (extract_domain u url) ≡ true
    → lets_pass (check_domain_allowed u owner_id url rules) ≡ false
unfolding check_domain_allowed
blocked_refused u owner_id url rules h = ground arith

-- `browse` sends no request for a URL whose own domain is blocked by default: its outcome is the same
-- for every network, and no log is written. The redirects of a page on another domain, which the
-- client follows with no test, and the requests of the monitors are not covered.
pub blocked-Unfetched :
    (w : Web) (now : ℕ) (log_id owner_id : String) (fetch : String → Fetched) (config_id : String)
    (summarize : Bool) (url : String) (s : Browsing)
    → blocked_by_default (extract_domain w.urls (with_scheme url)) ≡ true
    → Unfetched w now log_id owner_id fetch config_id summarize url s
blocked-Unfetched w now log_id owner_id fetch config_id summarize url s h =
    unfetched w now log_id owner_id fetch config_id summarize url s
      (blocked_refused w.urls owner_id (with_scheme url) s.rules h)
