-- ===== src/Tests/Gardens.antt =====
-- Gardens with a running manager, and one that has none yet.

use shoot_grafter.Base.{
  ℕ, ◌+◌, ◌≤◌, String, true, false, none, some, [], ◌∷◌, ◌≡◌, refl, arith, text_dec,
}
use shoot_grafter.Base.Dict.{lookup}
use shoot_grafter.Kube.{ok}
use shoot_grafter.Kube.Client.{Client}
use shoot_grafter.Metrics.{no_gauges}
use shoot_grafter.CareInstructionController.{Garden, State, GardenApi, garden_key}
use shoot_grafter.CareInstructionController.Gardens.{has, new_garden}
use shoot_grafter.CareInstructionController.Manager.{reconcile_manager, restart_shoot_controller}
use shoot_grafter.CareInstructionController.Sound.{IsSound, Runs}
use shoot_grafter.CareInstructionController.Reached.{
  begin, run_manager, run_restart, reached-managers,
}
use shoot_grafter.CareInstructionController.Lives.{
  reconcile_manager-IsSound, restart_shoot_controller_lem, restarts,
}
use shoot_grafter.Tests.Conditions.{greenhouse}
use shoot_grafter.Tests.Maps.{forward}
use shoot_grafter.Tests.Clusters.{Owners, client, mine, spec, two_clusters}

abbrev pub gardener : GardenApi Owners
gardener = record {
  RestConfig = String;
  Scheme = Unit {0};
  same_config = λ a b. false;
  same_spec = λ a b. true;
  sha256 = λ text. text;
  rest_config_from_kube_config = λ text. ok text;
  new_remote_kube_cfg = λ cluster w. ok cluster.name;
  new_scheme = tt;
  add_core = λ scheme. ok scheme;
  add_gardener = λ scheme. ok scheme;
  add_authentication = λ scheme. ok scheme;
  new_client = λ config scheme. ok client;
  new_manager = λ config scheme namespace. ok tt;
  as_selector = λ s. ok s;
  evaluate_cel = λ expression shoot. ok true;
  patch_care_instruction = λ base ci w. (ok ci, w);
  index_field = λ config. ok tt;
  set_up_shoot_controller = λ config ci. ok tt;
}

-- The garden of the first start.
abbrev pub first_garden : Garden String (Client Owners)
first_garden = record (new_garden spec "") {
  mgr = some 0;
  garden_config = some "old";
  garden_client = some client;
  cancel_func = some 0;
  stop_chan = some 0;
}

abbrev pub one_garden : State String Owners
one_garden = record {
  clusters = two_clusters.world;
  fleet = record {
    gardens = (garden_key mine, first_garden) ∷ [];
    next = 1;
    cancelled = [];
    closed = [];
  };
  instruction = mine;
  shares_spec = false;
  gauges = no_gauges;
}

pub one_garden-IsSound : IsSound one_garden.fleet
unfolding lookup
one_garden-IsSound = record {
  made = λ k g n l c. ground arith;
  own = λ k g n l m. ground arith;
  apart = λ j k g h n a b c d. ground arith;
  client = λ k g n l m. ground arith;
  past = λ n d. ground arith;
  kept = λ n b c. record {
    key = garden_key mine;
    garden = first_garden;
    is_there = ground arith;
    is_its = ground arith;
  };
}

reconcile_manager_example :
    IsSound
      (reconcile_manager greenhouse gardener client
        (record { world = one_garden; events = [] })).1.world.fleet
reconcile_manager_example =
    reconcile_manager-IsSound greenhouse gardener client
      (record { world = one_garden; events = [] }) one_garden-IsSound

restart_shoot_controller_example :
    (has 0 (restart_shoot_controller greenhouse gardener client one_garden).fleet.cancelled ≡ true)
    × (lookup
          (garden_key mine)
          (restart_shoot_controller greenhouse gardener client one_garden).fleet.gardens
        ≡ some (record first_garden { mgr = none }))
    × (restarts greenhouse gardener client
          (restart_shoot_controller greenhouse gardener client one_garden)
        ≡ 1 + restarts greenhouse gardener client one_garden)
    × (restarts greenhouse gardener client (
          restart_shoot_controller greenhouse gardener client
            (restart_shoot_controller greenhouse gardener client one_garden))
        ≡ 1 + restarts greenhouse gardener client one_garden)
unfolding lookup text_dec
restart_shoot_controller_example =
    restart_shoot_controller_lem greenhouse gardener client one_garden first_garden 0
      one_garden-IsSound refl refl

-- No garden yet.
abbrev pub empty : State String Owners
empty = record {
  clusters = two_clusters.world;
  fleet = record { gardens = []; next = 0; cancelled = []; closed = [] };
  instruction = mine;
  shares_spec = false;
  gauges = no_gauges;
}

-- A controller that runs reconcileManager once and then stops its manager.
abbrev after_restart : State String Owners
after_restart =
    restart_shoot_controller greenhouse gardener client
      (reconcile_manager greenhouse gardener client (record { world = empty; events = [] })).1.world

reached_managers_example :
    ((n : ℕ)
      → 1 + n ≤ after_restart.fleet.next
      → has n after_restart.fleet.cancelled ≡ false
      → Runs after_restart.fleet n)
    × ((n : ℕ) (R Q : Runs after_restart.fleet n) → R.key ≡ Q.key)
reached_managers_example = reached-managers greenhouse gardener forward client after_restart (
    run_restart _
      (run_manager (record { world = empty; events = [] }) (begin two_clusters.world mine)))
