-- ===== src/Family/Activation.antt =====
-- Legacy mode in apps/api/app/services/family_access.py is entered once and never left.
use replica_ai.Common.{
  ℕ, ◌≡◌, ◌≢◌, refl, String, true, false, Option, none, some, List, [], ◌∷◌, ◌++◌, first,
  update_first, count, str_eq, eq_iff, arith, Bool-cases, Option-cases, inl, inr, update_where,
}
use replica_ai.Family.Data.{AccessRule}
use replica_ai.Family.Legacy.{
  LegacyConfig, Trigger, Activity, config_of, reconfigured, new_legacy_config, configure_legacy,
  activated, activate_legacy, is_triggered, check_inactivity_triggers, get_legacy_config,
  lacks_trusted_rule,
}

is_triggered-inactive :
    (now : ℕ) (owners : List Activity) (c : LegacyConfig)
    → is_triggered now owners c ≡ true
    → c.is_active ≡ false
unfolding is_triggered
is_triggered-inactive now owners c h = ground arith

activated-not_triggered :
    (now later : ℕ) (owners : List Activity) (c : LegacyConfig)
    → is_triggered later owners (activated now c) ≡ false
unfolding is_triggered activated
activated-not_triggered now later owners c = ground arith

-- The background check counts the configurations that are triggered, and activates exactly those
-- at its time; a second check at the same time, of the same owners, counts none and changes nothing.
pub inactivity_check_settles :
    (now : ℕ) (owners : List Activity) (configs : List LegacyConfig)
    → let (n, configs') = check_inactivity_triggers now owners configs in
      (n ≡ count (is_triggered now owners) configs)
      × (configs' ≡ update_where (is_triggered now owners) (activated now) configs)
      × (check_inactivity_triggers now owners configs' ≡ (0, configs'))
unfolding check_inactivity_triggers
inactivity_check_settles now owners [] = (refl, refl, refl)
inactivity_check_settles now owners (c ∷ configs) =
    let ih = inactivity_check_settles now owners configs in
    elim (Bool-cases (is_triggered now owners c)) [
      | inl e ↦ ground (arith, ih.0, ih.1, ih.2, activated-not_triggered now now owners c)
      | inr e ↦ ground (arith, ih.0, ih.1, ih.2)
    ]

-- Legacy mode is on, since `t`.
abbrev pub Started : Option ℕ → Option LegacyConfig → Type 0
Started t none = ⊥
Started t (some c) = (c.is_active ≡ true) × (c.activated_at ≡ t)

module _ (j : String) (t : Option ℕ) where
  update_first-Started :
      (o : String) (f : LegacyConfig → LegacyConfig)
      → ((c : LegacyConfig) → config_of j (f c) ≡ config_of j c)
      → ((c : LegacyConfig) → Started t (some c) → Started t (some (f c)))
      → (configs : List LegacyConfig) → Started t (first (config_of j) configs)
      → Started t (first (config_of j) (update_first (config_of o) f configs))
  update_first-Started o f same keep [] h = h
  update_first-Started o f same keep (c ∷ configs) h =
      let ih = update_first-Started o f same keep configs in
      elim (Bool-cases (config_of o c)) [
        | inl e ↦ elim (Bool-cases (config_of j c)) [
          | inl g ↦ rw (e, same c, g) (keep c (rw g at h))
          | inr g ↦ rw (e, same c, g) (rw g at h)
        ]
        | inr e ↦ elim (Bool-cases (config_of j c)) [
          | inl g ↦ rw (e, g) (rw g at h)
          | inr g ↦ rw (e, g) (ih (rw g at h))
        ]
      ]

  append-Started :
      (c : LegacyConfig) (configs : List LegacyConfig)
      → Started t (first (config_of j) configs)
      → Started t (first (config_of j) (configs ++ c ∷ []))
  append-Started c [] h = absurd h
  append-Started c (x ∷ configs) h = elim (Bool-cases (config_of j x)) [
    | inl g ↦ rw g (rw g at h)
    | inr g ↦ rw g (append-Started c configs (rw g at h))
  ]

  configure-Started :
      (new_id o : String) (trigger : Trigger) (idle : ℕ) (rule_id : Option String)
      (rules : List AccessRule) (configs : List LegacyConfig)
      → Started t (first (config_of j) configs)
      → Started t
          (first (config_of j) (configure_legacy new_id o trigger idle rule_id rules configs).1)
  unfolding configure_legacy
  configure-Started new_id o trigger idle rule_id rules configs h =
      elim (Bool-cases (lacks_trusted_rule o trigger rule_id rules)) [
        | inl e ↦ ground arith
        | inr e ↦ elim (Option-cases (first (config_of o) configs)) [
          | inl f ↦
              ground
                (arith, append-Started (new_legacy_config new_id o trigger idle rule_id) configs h)
          | inr (c, f) ↦
              let kept =
                update_first-Started o (reconfigured trigger idle rule_id) (λ x. refl) (λ x s. s)
                  configs h in
              ground (arith, kept)
        ]
      ]

  first-update_first_other :
      (o : String) (now : ℕ) (configs : List LegacyConfig)
      → o ≢ j
      → first (config_of j) (update_first (config_of o) (activated now) configs)
        ≡ first (config_of j) configs
  unfolding activated
  first-update_first_other o now [] ne = refl
  first-update_first_other o now (c ∷ configs) ne =
      ground
        (arith, eq_iff c.owner_id o, eq_iff c.owner_id j, first-update_first_other o now configs ne)

  activate_self :
      (now : ℕ) (configs : List LegacyConfig)
      → Started t (first (config_of j) configs)
      → (activate_legacy now j configs).1 ≡ configs
  unfolding activate_legacy
  activate_self now configs h = elim (Option-cases (first (config_of j) configs)) [
    | inl f ↦ absurd (rw f at h)
    | inr (c, f) ↦ let s : Started t (some c) = rw f at h in ground (arith, f, s.0)
  ]

  activate_other :
      (now : ℕ) (o : String) (configs : List LegacyConfig)
      → o ≢ j
      → first (config_of j) (activate_legacy now o configs).1 ≡ first (config_of j) configs
  unfolding activate_legacy
  activate_other now o configs ne = elim (Option-cases (first (config_of o) configs)) [
    | inl f ↦ ground arith
    | inr (c, f) ↦ ground (arith, first-update_first_other o now configs ne)
  ]

  activate-Started :
      (now : ℕ) (o : String) (configs : List LegacyConfig)
      → Started t (first (config_of j) configs)
      → Started t (first (config_of j) (activate_legacy now o configs).1)
  activate-Started now o configs h = elim (Bool-cases (str_eq o j)) [
    | inl e ↦ rw ((eq_iff o j).0 e, activate_self now configs h) h
    | inr e ↦ rw (activate_other now o configs (λ q. ground (arith, eq_iff o j))) h
  ]

  check-Started :
      (now : ℕ) (owners : List Activity) (configs : List LegacyConfig)
      → Started t (first (config_of j) configs)
      → Started t (first (config_of j) (check_inactivity_triggers now owners configs).1)
  unfolding check_inactivity_triggers
  check-Started now owners [] h = h
  check-Started now owners (c ∷ configs) h =
      let ih = check-Started now owners configs in
      elim (Bool-cases (config_of j c)) [
        | inl g ↦
            let s : Started t (some c) = rw g at h in
            let idle = is_triggered-inactive now owners c in
            elim (Bool-cases (is_triggered now owners c)) [
              | inl e ↦ absurd (ground (arith, idle, s.0))
              | inr e ↦ rw (e, g) s
            ]
        | inr g ↦
            let rest = ih (rw g at h) in
            elim (Bool-cases (is_triggered now owners c)) [
              | inl e ↦ unfold activated in rw (e, g) rest
              | inr e ↦ rw (e, g) rest
            ]
      ]

  -- Legacy mode is final: once the configuration of an owner is active since `t`, it is active
  -- since `t` after any owner's configuration, accepted or not, after any owner's activation, and
  -- after any background check.
  pub legacy_is_final :
      (now : ℕ) (new_id o : String) (trigger : Trigger) (idle : ℕ) (rule_id : Option String)
      (rules : List AccessRule) (owners : List Activity) (configs : List LegacyConfig)
      → Started t (get_legacy_config j configs)
      → Started t
          (get_legacy_config j (configure_legacy new_id o trigger idle rule_id rules configs).1)
        × Started t (get_legacy_config j (activate_legacy now o configs).1)
        × Started t (get_legacy_config j (check_inactivity_triggers now owners configs).1)
  unfolding get_legacy_config
  legacy_is_final now new_id o trigger idle rule_id rules owners configs h = (
    configure-Started new_id o trigger idle rule_id rules configs h,
    activate-Started now o configs h,
    check-Started now owners configs h,
  )
