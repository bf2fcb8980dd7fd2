-- ===== src/Browsing/Idle.antt =====
-- How often apps/api/app/services/web_browser.py checks a monitor.
use replica_ai.Common.{
  ℕ, ◌<◌, ◌≡◌, ◌≢◌, refl, arith, String, true, false, Option, none, some, List, [], ◌∷◌, All, inl,
  inr, Bool-cases,
}
use replica_ai.Common.Raise.{Exception, ok, err, Result-cases}
use replica_ai.Browsing.Monitors.{
  PageMonitor, Watcher, is_active, is_due, compare_hash, check_text, check_single_monitor,
  record_check, check_monitor, check_monitors,
}

-- A monitor that the next round at `now` leaves alone.
abbrev IsIdle : ℕ → PageMonitor → Type 0
IsIdle now m = is_due now m ≡ false

module _ (w : Watcher) (now : ℕ) where
  interval-compare_hash :
      (hash : String) (m : PageMonitor) → (compare_hash hash m).1.interval ≡ m.interval
  interval-compare_hash hash m = ground arith

  interval-check_text :
      (text : String) (m : PageMonitor) → (check_text w text m).1.interval ≡ m.interval
  interval-check_text text m = ground (arith, interval-compare_hash (w.hash text) m)

  -- The extraction of the text raises for no page.
  abbrev pub Extracts : Type 0
  Extracts = (page url : String) → (e : Exception) → w.readable page url ≢ err e

  idle_answer :
      (m : PageMonitor) (r : Option String × PageMonitor)
      → 0 < r.1.interval
      → is_due now (record_check w now m (ok r)).1 ≡ false
  unfolding is_due
  idle_answer m (none, m') h = ground arith
  idle_answer m (some reason, m') h = ground arith

  single_checked :
      (page text : String) (title : Option String) (m : PageMonitor)
      → w.readable page m.url ≡ ok (text, title)
      → check_single_monitor w (some page) m ≡ ok (check_text w text m)
  unfolding check_single_monitor
  single_checked page text title m extracted = rw (extracted, check_single_monitor) refl

  idle_recorded :
      (fetched : Option String) (m : PageMonitor)
      → Extracts
      → 0 < m.interval
      → is_due now (record_check w now m (check_single_monitor w fetched m)).1 ≡ false
  unfolding check_single_monitor
  idle_recorded none m x h = idle_answer m (none, m) h
  idle_recorded (some page) m x h = elim (Result-cases (w.readable page m.url)) [
    | inl (e, raised) ↦ absurd (x page m.url e raised)
    | inr ((text, title), extracted) ↦
        rw (single_checked page text title m extracted)
          (idle_answer m (check_text w text m) (rw (interval-check_text text m) h))
  ]

  rests_inactive :
      (other : String → Option String) (m : PageMonitor)
      → is_active m.status ≡ false
      → check_monitor w other now m ≡ (false, m)
  unfolding check_monitor
  rests_inactive other m h = ground arith

  rests_early :
      (other : String → Option String) (m : PageMonitor)
      → is_due now m ≡ false
      → check_monitor w other now m ≡ (false, m)
  unfolding check_monitor
  rests_early other m h = ground arith

  checked_now :
      (fetch : String → Option String) (m : PageMonitor)
      → is_active m.status ≡ true
      → is_due now m ≡ true
      → check_monitor w fetch now m ≡ record_check w now m (check_single_monitor w (fetch m.url) m)
  unfolding check_monitor
  checked_now fetch m h k = ground arith

  settled :
      (fetch other : String → Option String) (m : PageMonitor)
      → Extracts
      → 0 < m.interval
      → check_monitor w other now (check_monitor w fetch now m).1
        ≡ (false, (check_monitor w fetch now m).1)
  settled fetch other m x h = elim (Bool-cases (is_active m.status)) [
    | inr inactive ↦ rw (rests_inactive fetch m inactive) (rests_inactive other m inactive)
    | inl running ↦ elim (Bool-cases (is_due now m)) [
      | inr early ↦ rw (rests_early fetch m early) (rests_early other m early)
      | inl due ↦
          rw (checked_now fetch m running due)
            (rests_early other _ (idle_recorded (fetch m.url) m x h))
    ]
  ]

  -- A monitor with an interval.
  abbrev pub HasInterval : PageMonitor → Type 0
  HasInterval m = 0 < m.interval

  -- A second round of the monitors at the same time does nothing: where every monitor has an interval
  -- and the text of a page can be extracted, no alert is triggered and no monitor changes, whatever
  -- the pages have become.
  pub second_round_idle :
      (fetch other : String → Option String) (monitors : List PageMonitor)
      → Extracts
      → All HasInterval monitors
      → check_monitors w other now (check_monitors w fetch now monitors).1
        ≡ (0, (check_monitors w fetch now monitors).1)
  unfolding check_monitors
  second_round_idle fetch other [] x h = refl
  second_round_idle fetch other (m ∷ monitors) x (here, h) =
      rw (settled fetch other m x here, second_round_idle fetch other monitors x h) refl
