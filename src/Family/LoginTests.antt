-- ===== src/Family/LoginTests.antt =====
-- The theorems on the login by family code, on the access rules and on legacy mode, at concrete
-- rows. `str_eq` stands for bcrypt's test, and texts for their own normal forms.
use Prim.Native.String.{◌++◌ as str_append}
use replica_ai.Common.{
  ◌≡◌, refl, ℕ, String, Bool, true, false, Option, none, some, List, [], ◌∷◌, arith, first, eq_iff,
  str_eq,
}
use replica_ai.Common.Time.{days}
use replica_ai.Common.Text.{decimal}
use replica_ai.Redis.Table.{table, Entry}
use replica_ai.RateLimit.{clear_attempts, check_rate_limit, lockout_key, attempts_key}
use replica_ai.Family.Data.{
  AccessRule, welcome, refused, AccessLevel, VerificationMethod, session_of,
}
use replica_ai.Family.Window.{time_refusal, has_expired}
use replica_ai.Family.Login.{
  Owner, LoginRequest, World, has_code, is_member, login_key, family_login, login_at, login_as,
  fails_secret, is_secret,
}
use replica_ai.Family.Guessing.{Knows, Guess, IsMiss, login_all, login_sound, wrong_guesses_lock}
use replica_ai.Family.Rules.{
  CreateRequest, UpdateRequest, keep, to, create_access_rule, update_access_rule,
  delete_access_rule, list_access_rules,
}
use replica_ai.Family.Ownership.{rules_isolated}
use replica_ai.Family.Legacy.{
  LegacyConfig, Trigger, Activity, get_legacy_config, configure_legacy, activate_legacy,
  check_inactivity_triggers,
}
use replica_ai.Family.Activation.{Started, legacy_is_final}

abbrev world : World
world = record {
  redis = table;
  limits = record { max_attempts = 3; window_seconds = 900; lockout_seconds = 3600 };
  checkpw = str_eq;
  normal_code = λ s. s;
  normal_name = λ s. s;
}

abbrev son : AccessRule
son = record {
  id = "r1";
  owner_id = "ann";
  grantee_name = "tom";
  grantee_relation = some "son";
  access_level = AccessLevel.limited;
  verification_method = VerificationMethod.secret_word;
  verification_value_hash = some "apple";
  is_active = true;
  valid_from = some 0;
  valid_until = none;
  topic_restrictions = none;
  time_restrictions = none;
  allowed_content_types = none;
  allowed_information_categories = none;
  template_name = none;
}

abbrev rules : List AccessRule
rules = son ∷ []

abbrev owners : List Owner
owners = record { id = "ann"; family_code = some "ABCD-EFGH" } ∷ []

abbrev guess : String → LoginRequest
guess value = record { family_code = "ABCD-EFGH"; grantee_name = "tom"; verification_value = value }

abbrev empty : String → Option Entry
empty k = none

tom_is_welcome :
    (family_login world 5 (guess "apple") owners rules empty).0 ≡ welcome (session_of son)
unfolding family_login login_at login_as has_code is_member is_secret fails_secret has_expired
    time_refusal check_rate_limit lockout_key attempts_key login_key
tom_is_welcome = refl

login_sound_example :
    (o : Owner) × (r : AccessRule) × (first (has_code "ABCD-EFGH") owners ≡ some o)
    × (first (is_member world o.id "tom") rules ≡ some r)
    × Knows world 5 (guess "apple") r
    × (session_of son ≡ session_of r)
login_sound_example =
    login_sound world 5 (guess "apple") owners rules empty (session_of son) tom_is_welcome

abbrev pear : ℕ → String → Guess
pear now value = record { now = now; request = guess value; owners = owners; rules = rules }

pear-IsMiss :
    (now : ℕ) (value : String)
    → str_eq value "apple" ≡ false
    → IsMiss world "ABCD-EFGH" (pear now value)
unfolding has_code is_member has_expired time_refusal is_secret fails_secret
pear-IsMiss now value h = record {
  owner = record { id = "ann"; family_code = some "ABCD-EFGH" };
  rule = son;
  by_code = refl;
  misses = record {
    owner_found = refl;
    rule_found = refl;
    unexpired = refl;
    in_window = refl;
    by_secret = refl;
    wrong = ground (arith, h);
  };
}

wrong_guesses_lock_example :
    (family_login world 6 (guess "apple") owners rules (
      login_all world
        (pear 5 "pear" ∷ pear 4 "plum" ∷ pear 3 "fig" ∷ [])
        (clear_attempts table world.limits empty (login_key "ABCD-EFGH")))).0
    ≡ refused
        (str_append "Too many attempts. Try again in " (str_append (decimal 3600) " seconds."))
wrong_guesses_lock_example =
    wrong_guesses_lock world (omega arith) "ABCD-EFGH"
      (pear 5 "pear" ∷ pear 4 "plum" ∷ pear 3 "fig" ∷ []) 6 (guess "apple") owners rules empty
      (pear-IsMiss 5 "pear" refl, (pear-IsMiss 4 "plum" refl, (pear-IsMiss 3 "fig" refl, tt))) refl
      refl

abbrev request : CreateRequest
request = record {
  grantee_name = "eve";
  grantee_relation = none;
  access_level = AccessLevel.full;
  verification_method = VerificationMethod.no_check;
  verification_value = none;
  topic_restrictions = none;
  time_restrictions = none;
  allowed_content_types = none;
  allowed_information_categories = none;
  valid_until = none;
  template_name = none;
}

abbrev update : UpdateRequest
update = record {
  grantee_name = keep;
  grantee_relation = to none;
  access_level = to (some AccessLevel.full);
  verification_method = keep;
  verification_value = keep;
  is_active = to none;
  valid_until = keep;
  topic_restrictions = keep;
  time_restrictions = keep;
  allowed_content_types = keep;
  allowed_information_categories = keep;
}

rules_isolated_example :
    (list_access_rules "ann" (create_access_rule 5 "r1" (λ s. s) "bob" request rules).1
      ≡ list_access_rules "ann" rules)
    × (list_access_rules "ann" (update_access_rule (λ s. s) "r1" "bob" update rules).1
        ≡ list_access_rules "ann" rules)
    × (list_access_rules "ann" (delete_access_rule "r1" "bob" rules).1
        ≡ list_access_rules "ann" rules)
rules_isolated_example =
    rules_isolated 5 "bob" "ann" "r1" (λ s. s) request update rules
      (ground (arith, eq_iff "bob" "ann"))

abbrev config : String → Bool → Option ℕ → LegacyConfig
config owner on since = record {
  id = "c";
  owner_id = owner;
  trigger_type = Trigger.inactivity;
  inactivity_days = 30;
  trusted_person_rule_id = none;
  is_active = on;
  activated_at = since;
}

abbrev configs : List LegacyConfig
configs = config "ann" true (some 7) ∷ config "bob" false none ∷ []

abbrev activity : List Activity
activity = record { id = "ann"; updated_at = 7 } ∷ record { id = "bob"; updated_at = days 1 } ∷ []

legacy_is_final_example :
    Started
      (some 7)
      (get_legacy_config "ann" (configure_legacy "c2" "ann" Trigger.manual 60 none [] configs).1)
    × Started (some 7) (get_legacy_config "ann" (activate_legacy (days 40) "ann" configs).1)
    × Started
        (some 7)
        (get_legacy_config "ann" (check_inactivity_triggers (days 40) activity configs).1)
legacy_is_final_example =
    legacy_is_final "ann" (some 7) (days 40) "c2" "ann" Trigger.manual 60 none [] activity configs
      (unfold get_legacy_config in (refl, refl))
