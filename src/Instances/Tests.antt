-- ===== src/Instances/Tests.antt =====
-- The theorems on the registry of apps/api/app/services/instance_manager.py at concrete tables.
use replica_ai.Common.{◌≡◌, ◌*◌, refl, String, Bool, true, false, none, some, List, [], ◌∷◌, arith}
use replica_ai.Common.Time.{second}
use replica_ai.Instances.{
  Instance, InstanceStatus, promote_to_primary, check_stale_instances, register_instance,
  RegisterEnv, active, local, offline, is_stale,
}
use replica_ai.Instances.Primary.{HasOnePrimary}
use replica_ai.Instances.History.{Reach, Step, Reach-HasOnePrimary}

abbrev server : String → String → Bool → InstanceStatus → Instance
server id owner primary status = record {
  id = id;
  owner_id = owner;
  instance_type = local;
  hostname = id;
  last_sync_at = none;
  status = status;
  version = "0.1.0";
  capabilities = some ("embed" ∷ []);
  is_primary = primary;
  last_heartbeat_at = some second;
  auth_token_hash = none;
  api_url = none;
}

abbrev servers : List Instance
servers =
    server "attic" "ann" true active
    ∷ server "cellar" "ann" false offline
    ∷ server "shed" "bob" true active
    ∷ []

no_rows-HasOnePrimary : HasOnePrimary []
no_rows-HasOnePrimary o = omega arith

abbrev home_registration : RegisterEnv
home_registration = record { now = 0; new_id = "home"; token_hash = "h" }

abbrev home_rows : List Instance
home_rows = (register_instance home_registration "ann" local "home" none none []).1

home_history : Reach [] (promote_to_primary "home" "ann" home_rows).1
home_history =
    Reach.later
      (Reach.later Reach.start (Step.registers home_registration "ann" local "home" none none))
      (Step.promotes "home" "ann")

Reach-HasOnePrimary_example : HasOnePrimary (promote_to_primary "home" "ann" home_rows).1
Reach-HasOnePrimary_example = Reach-HasOnePrimary no_rows-HasOnePrimary home_history

-- The servers of the table are silent for long enough to be marked, but for the one offline.
marks_two : (check_stale_instances 300 (1000 * second) servers).0 ≡ 2
unfolding check_stale_instances is_stale
marks_two = refl
