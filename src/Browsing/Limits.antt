-- ===== src/Browsing/Limits.antt =====
-- The daily limit of apps/api/app/services/web_browser.py.
use replica_ai.Common.{
  ℕ, ◌+◌, ◌≤◌, ◌<◌, ◌≡◌, arith, String, Bool, true, false, not, ◌&&◌, List, [], ◌∷◌, ◌++◌, count,
  first, ◌∙◌, refl, ap, Option, none, some, zero, suc, if-both, Bool-cases, inl, inr, leb, ltb,
  if◌then◌else◌,
}
use replica_ai.Common.Raise.{Exception, Result, ok, err, Result-cases}
use replica_ai.Common.Text.{take_chars}
use replica_ai.Browsing.Domains.{check_domain_allowed}
use replica_ai.Browsing.Searches.{WebResult, WebResults, summarize_top, search_web}
use replica_ai.Browsing.Pages.{
  Web, Fetched, answered, timed_out, http_error, raised, Page, Browsing, has_owner, BrowseConfig,
  BrowseLog, browse, after_check, after_count, count_rows, handle_fetched, read_page, logged,
  of_today, pages_today, ensure_browse_config, with_scheme,
}

leb-false : (a b : ℕ) → leb a b ≡ false → b < a
leb-false a b h = ground arith

count-snoc :
    (test : BrowseLog → Bool) (logs : List BrowseLog) (log : BrowseLog)
    → count test (logs ++ log ∷ []) ≤ count test logs + 1
count-snoc test [] log = ground arith
count-snoc test (x ∷ logs) log = ground (arith, count-snoc test logs log)

module _ (w : Web) (now : ℕ) (log_id owner_id : String) where
  -- At most one page more than before, and the same configurations.
  abbrev OneMore : Browsing → Result Page × Browsing → Type 0
  OneMore s r =
      (pages_today owner_id now r.1.logs ≤ pages_today owner_id now s.logs + 1)
      × (r.1.configs ≡ s.configs)

  one_logged : (log : BrowseLog) (s : Browsing) → OneMore s (logged log s)
  one_logged log s = (count-snoc (of_today owner_id now) s.logs log, refl)

  one_read :
      (wanted : Bool) (url : String) (status : ℕ) (content : String) (bytes : ℕ) (s : Browsing)
      → OneMore s (read_page w now log_id owner_id wanted url status content bytes s)
  one_read wanted url status content bytes s =
      let kept =
        if ltb w.max_page_bytes bytes then take_chars w.max_page_bytes content else content in
      elim (Result-cases (w.readable kept url)) [
        | inl (e, failed) ↦ rw (failed, read_page) (omega arith, refl)
        | inr ((text, title), extracted) ↦ rw (extracted, read_page) (one_logged _ s)
      ]

  one_handled :
      (wanted : Bool) (url : String) (f : Fetched) (s : Browsing)
      → OneMore s (handle_fetched w now log_id owner_id wanted url f s)
  unfolding handle_fetched
  one_handled wanted url (answered status content bytes) s =
      if-both (OneMore s) (leb 400 status) _ _ (one_logged _ s)
        (one_read wanted url status content bytes s)
  one_handled wanted url timed_out s = one_logged _ s
  one_handled wanted url (http_error message) s = one_logged _ s
  one_handled wanted url (raised e) s = (omega arith, refl)

  one_checked :
      (fetch : String → Fetched) (wanted : Bool) (url : String) (r : Result (Bool × String))
      (s : Browsing)
      → OneMore s (after_check w now log_id owner_id fetch wanted url r s)
  one_checked fetch wanted url (err e) s = (omega arith, refl)
  one_checked fetch wanted url (ok (false, reason)) s = (omega arith, refl)
  one_checked fetch wanted url (ok (true, reason)) s = one_handled wanted url (fetch url) s

  count_bounded :
      (z : Option Exception) (fetch : String → Fetched) (summarize : Bool) (url : String)
      (c : BrowseConfig) (s : Browsing)
      → pages_today owner_id now s.logs ≤ c.max_pages_per_day
      → let counted = count_rows z (pages_today owner_id now s.logs) in
        pages_today owner_id now
          (after_count w now log_id owner_id fetch summarize url c counted s).1.logs
        ≤ c.max_pages_per_day
  count_bounded (some e) fetch summarize url c s h = h
  count_bounded none fetch summarize url c s h =
      let checked =
        one_checked fetch (summarize && c.auto_summarize) url
          (check_domain_allowed w.urls owner_id url s.rules) s in
      elim (Bool-cases (leb c.max_pages_per_day (pages_today owner_id now s.logs))) [
        | inl full ↦ rw full h
        | inr below ↦
            let left = leb-false c.max_pages_per_day (pages_today owner_id now s.logs) below in
            rw below (omega (arith, checked.0, left))
      ]

  count_keeps_configs :
      (r : Result ℕ) (fetch : String → Fetched) (summarize : Bool) (url : String) (c : BrowseConfig)
      (s : Browsing)
      → (after_count w now log_id owner_id fetch summarize url c r s).1.configs ≡ s.configs
  count_keeps_configs (err e) fetch summarize url c s = refl
  count_keeps_configs (ok today) fetch summarize url c s =
      let checked =
        one_checked fetch (summarize && c.auto_summarize) url
          (check_domain_allowed w.urls owner_id url s.rules) s in
      if-both {A = Result Page × Browsing} (λ r. r.1.configs ≡ s.configs)
        (leb c.max_pages_per_day today) _ _ refl checked.1

  -- The daily limit holds: where an owner has at most as many pages today as the configuration
  -- allows, this is so after one more call of `browse`, whatever the URL, the network and the driver
  -- of the database are.
  pub pages_bounded :
      (fetch : String → Fetched) (config_id : String) (summarize : Bool) (url : String)
      (s : Browsing)
      → let limit = (ensure_browse_config config_id owner_id s.configs).0.max_pages_per_day in
        pages_today owner_id now s.logs ≤ limit
        → pages_today owner_id now
            (browse w now log_id owner_id fetch config_id summarize url s).1.logs
          ≤ limit
  unfolding browse
  pages_bounded fetch config_id summarize url s h =
      let found = ensure_browse_config config_id owner_id s.configs in
      let s' : Browsing = record s { configs = found.1 } in
      if-both {A = Result Page × Browsing}
        (λ r. pages_today owner_id now r.1.logs ≤ found.0.max_pages_per_day) (not found.0.enabled) _
        _ h (count_bounded w.zone_error fetch summarize (with_scheme url) found.0 s' h)

  limit_of :
      (config_id : String) (s : Browsing) (c : BrowseConfig)
      → first (has_owner owner_id) s.configs ≡ some c
      → ensure_browse_config config_id owner_id s.configs ≡ (c, s.configs)
  unfolding ensure_browse_config
  limit_of config_id s c h = ground (arith, h)

  kept_configs :
      (fetch : String → Fetched) (config_id : String) (summarize : Bool) (url : String)
      (s : Browsing) (c : BrowseConfig)
      → first (has_owner owner_id) s.configs ≡ some c
      → (browse w now log_id owner_id fetch config_id summarize url s).1.configs ≡ s.configs
  unfolding browse
  kept_configs fetch config_id summarize url s c h =
      let found = ensure_browse_config config_id owner_id s.configs in
      let s' : Browsing = record s { configs = found.1 } in
      let counted = count_rows w.zone_error (pages_today owner_id now s.logs) in
      if-both {A = Result Page × Browsing} (λ r. r.1.configs ≡ found.1) (not found.0.enabled) _ _
        refl (count_keeps_configs counted fetch summarize (with_scheme url) found.0 s')
      ∙ ap (λ p. p.1) (limit_of config_id s c h)

module _ (w : Web) (now : ℕ) (owner_id : String) (c : BrowseConfig) where
  -- The owner has the configuration, and no more pages today than it allows.
  abbrev pub IsWithin : Browsing → Type 0
  IsWithin s =
      (first (has_owner owner_id) s.configs ≡ some c)
      × (pages_today owner_id now s.logs ≤ c.max_pages_per_day)

  browse-IsWithin :
      (log_id : String) (fetch : String → Fetched) (url : String) (s : Browsing)
      → IsWithin s
      → IsWithin (browse w now log_id owner_id fetch "" true url s).1
  browse-IsWithin log_id fetch url s (h, below) = (
    ap (first (has_owner owner_id)) (kept_configs w now log_id owner_id fetch "" true url s c h)
        ∙ h,
    rw (limit_of w now log_id owner_id "" s c h) at (
        pages_bounded w now log_id owner_id fetch "" true url s
          (rw (limit_of w now log_id owner_id "" s c h) below)),
  )

  summarize_top-IsWithin :
      (fetch : String → Fetched) (top : ℕ) (log_ids : ℕ → String) (results : List WebResult)
      (s : Browsing)
      → IsWithin s
      → IsWithin (summarize_top w now owner_id fetch top log_ids results s).1
  summarize_top-IsWithin fetch zero log_ids results s h = h
  summarize_top-IsWithin fetch (suc top) log_ids [] s h = h
  summarize_top-IsWithin fetch (suc top) log_ids (r ∷ results) s h =
      summarize_top-IsWithin fetch top log_ids results _
        (browse-IsWithin (log_ids top) fetch r.url s h)

  -- The daily limit holds for a search too, however many of its results are summarized: where an owner
  -- with a configuration has at most as many pages today as it allows, this is so after the search,
  -- and the configuration is the same, also where the driver of the database refuses to count.
  pub search_web-IsWithin :
      (fetch : String → Fetched) (engine : String → List WebResult) (config_id : String)
      (log_ids : ℕ → String) (query : String) (top : ℕ) (s : Browsing)
      → IsWithin s
      → IsWithin (search_web w now owner_id fetch engine config_id log_ids query top s).1
  unfolding search_web
  search_web-IsWithin fetch engine config_id log_ids query top s (h, below) =
      rw (limit_of w now "" owner_id config_id s c h, search_web)
        (if-both {A = WebResults × Browsing} (λ r. IsWithin r.1) (not c.enabled) _ _ (h, below)
          (summarize_top-IsWithin fetch top log_ids (engine query) s (h, below)))
