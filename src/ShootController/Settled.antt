-- ===== src/ShootController/Settled.antt =====
-- A second run of ConfigureOIDCAuthentication has nothing to do.
use shoot_grafter.Base.{String, false, none, some, ◌≡◌, ◌≢◌, refl, arith}
use mathlib.Core.Logic.{if_neg}
use shoot_grafter.Base.Dict.{lookup, lookup-insert, entries}
use shoot_grafter.Kube.{ok, ConfigMap, Shoot}
use shoot_grafter.Kube.Exec.{pure, attempt, ◌>>=◌}
use shoot_grafter.Kube.Client.{unchanged}
use shoot_grafter.Api.{CareInstruction, care_instruction_label, auth_config_map_label}
use shoot_grafter.ShootController.{ShootController, Run, read, write}
use shoot_grafter.ShootController.Auth.{
  auth_config_map_key, value_of, config_map_name, mutate_config_map, needs_label,
  with_care_instruction_label, referring, needs_update, fetch_auth_config_map, write_config_map,
  label_shoot, refer_to_config_map, configure_oidc_authentication,
}

-- The Shoot as a run leaves it: labelled, and referring to the ConfigMap of its name.
abbrev pub settled : CareInstruction → Shoot → Shoot
settled ci shoot = with_care_instruction_label ci (referring shoot (config_map_name ci shoot))

-- The name of the ConfigMap is stable.
config_map_name-settled :
    (ci : CareInstruction) (shoot : Shoot)
    → config_map_name ci (settled ci shoot) ≡ config_map_name ci shoot
unfolding config_map_name
config_map_name-settled ci shoot = ground arith

needs_label-settled :
    (ci : CareInstruction) (shoot : Shoot) → needs_label ci (settled ci shoot).labels ≡ false
needs_label-settled ci shoot = ground (
  arith,
  lookup-insert care_instruction_label care_instruction_label ci.name (entries shoot.labels),
)

needs_update-settled :
    (ci : CareInstruction) (shoot : Shoot)
    → needs_update (config_map_name ci shoot) (settled ci shoot).spec.kube_api_server ≡ false
needs_update-settled ci shoot = ground arith

module _ {W : Type 0} (r : ShootController W) (shoot : Shoot) (s : Run W) where
  abbrev ci : CareInstruction
  ci = r.care_instruction

  abbrev fresh : ConfigMap
  fresh = record {
    meta = record {
      name = config_map_name ci shoot;
      namespace = shoot.namespace;
      labels = none;
      annotations = none;
    };
    contents = none;
  }

  -- If the Greenhouse ConfigMap is there, labelled and with a content that is not empty, and
  -- CreateOrUpdate finds nothing to change in the garden, then for a Shoot as a former run leaves
  -- it (labelled, and referring to the ConfigMap of the name that the run chose for it), a run
  -- succeeds, chooses the same name, leaves the Shoot alone, reports no change, and does nothing
  -- to the clusters besides that CreateOrUpdate.
  pub configure_oidc_authentication-settled :
      (cm cm' : ConfigMap) (label : String) (w : W)
      → r.greenhouse_client.get_config_map
          (record { namespace = ci.namespace; name = ci.spec.authentication_config_map_name })
          s.world
        ≡ ok cm
      → lookup auth_config_map_label (entries cm.labels) ≡ some label
      → value_of auth_config_map_key cm.contents ≢ ""
      → r.garden_client.create_or_update_config_map fresh
          (mutate_config_map ci (value_of auth_config_map_key cm.contents))
          s.world
        ≡ (ok (unchanged, cm'), w)
      → configure_oidc_authentication r (settled ci shoot) s
        ≡ (ok (false, settled ci shoot), record s { world = w })
  unfolding configure_oidc_authentication fetch_auth_config_map write_config_map label_shoot
      refer_to_config_map ◌>>=◌ pure attempt read write
  configure_oidc_authentication-settled cm cm' label w got labelled content same = rw got (
      rw labelled (
        rw (if_neg _ content) (
          rw (config_map_name-settled ci shoot) (
            rw same
              (rw (needs_label-settled ci shoot) (rw (needs_update-settled ci shoot) refl))))))
