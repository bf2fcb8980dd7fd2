-- ===== src/Browsing/Searches.antt =====
-- `search_web` and the settings of apps/api/app/services/web_browser.py. The search engine is a
-- parameter: its results, none where it cannot be reached.
use replica_ai.Common.{
  ℕ, zero, suc, String, Bool, true, not, Option, List, [], ◌∷◌, length, update_first, truthy,
  or_default, if◌then◌else◌,
}
use replica_ai.Common.Raise.{Result, ok, err}
use replica_ai.Browsing.Pages.{
  Web, Fetched, Page, Browsing, BrowseConfig, has_owner, ensure_browse_config, browse,
}

pub record WebResult : Type 0 where
  pub title : String
  pub url : String
  pub snippet : String
  pub summary : Option String

pub record WebResults : Type 0 where
  pub query : String
  pub results : List WebResult
  pub total : ℕ

abbrev summarized : Result Page → WebResult → WebResult
summarized (err e) r = r
summarized (ok page) r = if truthy page.summary then record r { summary = page.summary } else r

module _ (w : Web) (now : ℕ) (owner_id : String) where
  -- The first `top` results are browsed, each with a log of its own; one that raises stays as it is.
  abbrev pub summarize_top :
      (String → Fetched) → ℕ → (ℕ → String) → List WebResult → Browsing → List WebResult × Browsing
  summarize_top fetch zero log_ids results s = (results, s)
  summarize_top fetch (suc top) log_ids [] s = ([], s)
  summarize_top fetch (suc top) log_ids (r ∷ results) s =
      let (page, s1) = browse w now (log_ids top) owner_id fetch "" true r.url s in
      let (rest, s2) = summarize_top fetch top log_ids results s1 in (summarized page r ∷ rest, s2)

  unfoldable pub search_web :
      (String → Fetched)
      → (String → List WebResult)
      → String
      → (ℕ → String)
      → String
      → ℕ
      → Browsing
      → WebResults × Browsing
  search_web fetch engine config_id log_ids query top s =
      let (c, configs) = ensure_browse_config config_id owner_id s.configs in
      let s' : Browsing = record s { configs = configs } in
      if not c.enabled
      then (record { query = query; results = []; total = 0 }, s')
      else (let (results, after) = summarize_top fetch top log_ids (engine query) s' in
          (record { query = query; results = results; total = length results }, after))

-- The values that an update gives; one that is `None` leaves the setting as it is.
pub record ConfigUpdate : Type 0 where
  pub enabled : Option Bool
  pub auto_summarize : Option Bool
  pub max_pages_per_day : Option ℕ

abbrev pub with_update : ConfigUpdate → BrowseConfig → BrowseConfig
with_update u c = record c {
  enabled = or_default c.enabled u.enabled;
  auto_summarize = or_default c.auto_summarize u.auto_summarize;
  max_pages_per_day = or_default c.max_pages_per_day u.max_pages_per_day;
}

unfoldable pub update_browse_config :
    String → String → ConfigUpdate → List BrowseConfig → BrowseConfig × List BrowseConfig
update_browse_config id owner_id u configs =
    let (c, kept) = ensure_browse_config id owner_id configs in
    (with_update u c, update_first (has_owner owner_id) (with_update u) kept)
