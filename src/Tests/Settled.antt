-- ===== src/Tests/Settled.antt =====
-- A run of ConfigureOIDCAuthentication for a Shoot that is set up.
use text.Mathlib.TextEquality.{eq_iff}
use shoot_grafter.Base.{String, false, some, none, [], ◌∷◌, ◌≡◌, ◌≢◌, refl, arith, text_dec}
use shoot_grafter.Base.Dict.{lookup}
use shoot_grafter.Kube.{ok, ConfigMap}
use shoot_grafter.Kube.Client.{Client, unchanged}
use shoot_grafter.Api.{auth_config_map_label}
use shoot_grafter.ShootController.{ShootController}
use shoot_grafter.ShootController.Auth.{
  configure_oidc_authentication, config_map_name, mutate_config_map,
}
use shoot_grafter.ShootController.Settled.{settled, configure_oidc_authentication-settled}
use shoot_grafter.Tests.Clusters.{Owners, client, controller, mine, two_clusters, meta_of}
use shoot_grafter.Tests.Reports.{shoot_named}

abbrev labelled_map : ConfigMap
labelled_map = record {
  meta = meta_of "greenhouse" "auth" (some ((auth_config_map_label, "true") ∷ []));
  contents = some (("config.yaml", "jwt: []") ∷ []);
}

-- The clusters have the ConfigMaps.
abbrev settled_client : Client Owners
settled_client = record client {
  get_config_map = λ key w. ok labelled_map;
  create_or_update_config_map = λ cm f w. (ok (unchanged, f cm), w);
}

abbrev settled_controller : ShootController Owners
settled_controller = record controller {
  greenhouse_client = settled_client;
  garden_client = settled_client;
}

abbrev content : String
content = "jwt: []"

content-ne-empty : content ≢ ""
content-ne-empty = ground (arith, eq_iff content "")

configure_oidc_authentication-settled_example :
    configure_oidc_authentication settled_controller (settled mine (shoot_named "a")) two_clusters
    ≡ (ok (false, settled mine (shoot_named "a")), two_clusters)
unfolding lookup text_dec
configure_oidc_authentication-settled_example =
    configure_oidc_authentication-settled settled_controller (shoot_named "a") two_clusters
      labelled_map
      (mutate_config_map mine content (record {
        meta = meta_of "garden-project" (config_map_name mine (shoot_named "a")) none;
        contents = none;
      }))
      "true" two_clusters.world refl refl content-ne-empty refl
