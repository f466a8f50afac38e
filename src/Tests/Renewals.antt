-- ===== src/Tests/Renewals.antt =====
-- An auth ConfigMap with a content, for a garden that runs and for a new one.
use text.Mathlib.TextEquality.{eq_iff}
use shoot_grafter.Base.{some, none, [], ◌∷◌, ◌≡◌, ◌≢◌, refl, arith, ◌!=◌, text_dec, String}
use shoot_grafter.Base.Dict.{lookup, insert}
use shoot_grafter.Kube.{ok, ConfigMap}
use shoot_grafter.Kube.Client.{Client}
use shoot_grafter.Kube.Exec.{◌>>=◌}
use shoot_grafter.Api.{set_condition}
use shoot_grafter.ShootController.{Run, read, write}
use shoot_grafter.CareInstructionController.{State}
use shoot_grafter.CareInstructionController.Access.{get_garden_cluster_access}
use shoot_grafter.CareInstructionController.Gardens.{register}
use shoot_grafter.CareInstructionController.Manager.{
  hash_auth_config_map, reconcile_manager, recreate_manager, prepare_manager, initial_hash,
  is_current,
}
use shoot_grafter.CareInstructionController.Shoots.{handle_auth_change}
use shoot_grafter.CareInstructionController.Renewal.{HasAuth, Renewed, handle_auth_change_lem}
use shoot_grafter.CareInstructionController.Seeded.{handle_auth_change-reconcile_manager}
use shoot_grafter.Tests.Conditions.{greenhouse}
use shoot_grafter.Tests.Maps.{forward}
use shoot_grafter.Tests.Clusters.{Owners, meta_of}
use shoot_grafter.Tests.Gardens.{gardener, one_garden, one_garden-IsSound, first_garden, empty}
use shoot_grafter.Tests.Handlers.{serving, first_run}

abbrev auth_map : ConfigMap
auth_map = record {
  meta = meta_of "greenhouse" "auth" none;
  contents = some (("config.yaml", "jwt") ∷ []);
}

-- The ConfigMap is there too.
abbrev renewing : Client Owners
renewing = record serving { get_config_map = λ key w. ok auth_map }

auth-ne-none : ◌≢◌ {A = String} "auth" ""
auth-ne-none = ground (arith, eq_iff "auth" "")

first-HasAuth : HasAuth greenhouse gardener forward renewing one_garden auth_map
first-HasAuth = record { is_named = auth-ne-none; answer = refl }

handle_auth_change_example :
    Renewed greenhouse gardener forward renewing
      (hash_auth_config_map greenhouse gardener renewing auth_map != "")
      (hash_auth_config_map greenhouse gardener renewing auth_map)
      first_garden
      0
      one_garden
      (handle_auth_change greenhouse gardener forward renewing first_run).1.world
    × ((handle_auth_change greenhouse gardener forward renewing
          (handle_auth_change greenhouse gardener forward renewing first_run).1).1.world
        ≡ (handle_auth_change greenhouse gardener forward renewing first_run).1.world)
unfolding lookup text_dec
handle_auth_change_example =
    handle_auth_change_lem greenhouse gardener forward renewing first_run auth_map first_garden 0
      one_garden-IsSound first-HasAuth refl refl

abbrev new_run : Run (State String Owners)
new_run = record { world = empty; events = [] }

new-HasAuth : HasAuth greenhouse gardener forward renewing empty auth_map
new-HasAuth = record { is_named = auth-ne-none; answer = refl }

new_run_succeeds : (reconcile_manager greenhouse gardener renewing new_run).0 ≡ ok tt
unfolding insert lookup text_dec ◌>>=◌ read write get_garden_cluster_access set_condition register
    prepare_manager initial_hash is_current recreate_manager reconcile_manager
new_run_succeeds = refl

handle_auth_change-reconcile_manager_example :
    (handle_auth_change greenhouse gardener forward renewing
      (reconcile_manager greenhouse gardener renewing new_run).1).1.world
    ≡ (reconcile_manager greenhouse gardener renewing new_run).1.world
unfolding lookup
handle_auth_change-reconcile_manager_example =
    handle_auth_change-reconcile_manager greenhouse gardener forward renewing new_run auth_map
      new-HasAuth refl new_run_succeeds
