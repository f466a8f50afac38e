-- ===== src/Tests/Connected.antt =====
-- A run of ConfigureOIDCAuthentication for a Shoot that is not set up.
use text.Mathlib.TextEquality.{eq_iff}
use shoot_grafter.Base.{true, Option, some, none, [], ◌∷◌, ◌≡◌, ◌≢◌, refl, arith, get_or, text_dec}
use shoot_grafter.Base.Dict.{Dict, lookup, insert, lookup-insert}
use shoot_grafter.Kube.{Result, ok, ConfigMap, Shoot}
use shoot_grafter.Kube.Exec.{◌>>=◌}
use shoot_grafter.Kube.Client.{Client, created}
use shoot_grafter.Api.{auth_config_map_label}
use shoot_grafter.ShootController.{ShootController, Run, read, write}
use shoot_grafter.ShootController.Auth.{
  configure_oidc_authentication, config_map_name, with_care_instruction_label, referring, value_of,
  auth_config_map_key, fetch_auth_config_map, write_config_map, label_shoot, refer_to_config_map,
}
use shoot_grafter.ShootController.Garden.{IsGarden, KeepsData, Holds, IsSetUp}
use shoot_grafter.ShootController.Connected.{configure_oidc_authentication-connected}
use shoot_grafter.Tests.Clusters.{mine, missing, meta_of}
use shoot_grafter.Tests.Reports.{shoot_named}

-- The ConfigMaps of the clusters by name.
abbrev found_map : Option ConfigMap → Result ConfigMap
found_map none = missing
found_map (some cm) = ok cm

abbrev maps_client : Client (Dict ConfigMap)
maps_client = record {
  get_cluster = λ key w. missing;
  get_config_map = λ key w. found_map (lookup key.name w);
  get_secret = λ key w. missing;
  get_shoot = λ key w. missing;
  get_cluster_role_binding = λ name w. missing;
  list_shoots = λ options w. ok [];
  list_clusters = λ options w. ok [];
  delete_cluster = λ c w. (missing, w);
  delete_cluster_role_binding = λ b w. (missing, w);
  patch_config_map = λ base cm w. (ok cm, insert cm.name cm w);
  patch_shoot = λ base s w. (ok s, w);
  patch_cluster = λ base c w. (ok c, w);
  update_shoot = λ s w. (ok s, w);
  create_or_update_secret = λ s f w. (ok (created, f s), w);
  create_or_update_config_map = λ cm f w.
      let next = f (get_or (lookup cm.name w) cm) in (ok (created, next), insert cm.name next w);
  create_or_update_cluster_role_binding = λ b f w. (ok (created, f b), w);
}

same_shoot : (s t : Shoot) → ◌≡◌ {A = Result Shoot} (ok s) (ok t) → t ≡ s
same_shoot s t e = ground arith

maps_client-IsGarden : IsGarden maps_client
maps_client-IsGarden = record {
  stored = λ cm f w answer e. (
    get_or (lookup cm.name w) cm,
    ground (arith, lookup-insert cm.name cm.name (f (get_or (lookup cm.name w) cm)) w),
  );
  patch_leaves = λ base s key w. refl;
  update_leaves = λ s key w. refl;
  patch_answers = λ base s t w e. rw (same_shoot s t e) refl;
  update_answers = λ s t w e. rw (same_shoot s t e) (refl, refl);
}

maps_client-KeepsData : KeepsData maps_client
maps_client-KeepsData base cm answer w e = ground arith

abbrev maps_controller : ShootController (Dict ConfigMap)
maps_controller = record {
  greenhouse_client = maps_client;
  garden_client = maps_client;
  name = "shoot-controller-mine";
  care_instruction = mine;
  has_event_recorder = true;
}

abbrev source : ConfigMap
source = record {
  meta = meta_of "greenhouse" "auth" (some ((auth_config_map_label, "true") ∷ []));
  contents = some (("config.yaml", "jwt: []") ∷ []);
}

abbrev one_map : Run (Dict ConfigMap)
one_map = record { world = ("auth", source) ∷ []; events = [] }

mine-named : mine.name ≢ ""
mine-named = ground (arith, eq_iff "mine" "")

configure_oidc_authentication-connected_example :
    (value_of auth_config_map_key source.contents ≢ "")
    × Holds maps_client
        (record { namespace = "garden-project"; name = config_map_name mine (shoot_named "a") })
        "mine"
        (value_of auth_config_map_key source.contents)
        (configure_oidc_authentication maps_controller (shoot_named "a") one_map).1.world
    × IsSetUp mine (config_map_name mine (shoot_named "a")) (
        referring
          (with_care_instruction_label mine (shoot_named "a"))
          (config_map_name mine (shoot_named "a")))
unfolding lookup text_dec configure_oidc_authentication fetch_auth_config_map write_config_map
    label_shoot refer_to_config_map read write ◌>>=◌
configure_oidc_authentication-connected_example =
    configure_oidc_authentication-connected maps_controller maps_client-IsGarden
      maps_client-KeepsData mine-named (shoot_named "a") source one_map true
      (referring (with_care_instruction_label mine (shoot_named "a"))
        (config_map_name mine (shoot_named "a")))
      refl refl
