-- ===== src/CareInstructionController/Access.antt =====
-- client.go: the configuration that leads to a garden.
use shoot_grafter.Base.{String, Option, none, some, if◌then◌else◌, ◌!=◌}
use shoot_grafter.Base.Dict.{lookup, entries}
use shoot_grafter.Kube.{new_error, Result, ok, err}
use shoot_grafter.Kube.Client.{Client}
use shoot_grafter.Kube.Conditions.{ConditionApi}
use shoot_grafter.Api.{CareInstruction}
use shoot_grafter.CareInstructionController.{GardenApi}

abbrev pub and_then {ℓ κ} : {A : Type ℓ} {B : Type κ} → Result A → (A → Result B) → Result B
and_then (ok a) f = f a
and_then (err e) f = err e

module _ {W : Type 0} (C : ConditionApi) (G : GardenApi W) (greenhouse : Client W) where
  abbrev kube_config_of : Option String → Result String
  kube_config_of none = err (new_error "kubeconfig not found in gardenCluster secret")
  kube_config_of (some text) = ok text

  -- From the Secret that the CareInstruction names.
  unfoldable pub config_of_secret : CareInstruction → W → Result G.RestConfig
  config_of_secret ci w =
      let reference = ci.spec.garden_cluster_kube_config_secret_name in
      and_then
        (greenhouse.get_secret (record { namespace = ci.namespace; name = reference.name }) w)
        (λ secret.
          and_then (kube_config_of (lookup reference.key (entries secret.contents)))
            G.rest_config_from_kube_config)

  -- From the Greenhouse Cluster that the CareInstruction names.
  unfoldable pub config_of_cluster : CareInstruction → W → Result G.RestConfig
  config_of_cluster ci w =
      and_then
        (greenhouse.get_cluster
          (record { namespace = ci.namespace; name = ci.spec.garden_cluster_name }) w)
        (λ cluster.
          if C.is_ready_true cluster.conditions
          then G.new_remote_kube_cfg cluster w
          else err (new_error "GardenCluster is not ready"))

  unfoldable pub get_garden_cluster_access : CareInstruction → W → Result (G.RestConfig × G.Scheme)
  unfolding config_of_secret config_of_cluster
  get_garden_cluster_access ci w =
      let from_secret = config_of_secret ci w in
      let from_cluster = config_of_cluster ci w in
      and_then
        (if ci.spec.garden_cluster_kube_config_secret_name.name != ""
          then from_secret
          else from_cluster)
        (λ cfg. and_then (G.add_core G.new_scheme) (λ with_core.
          and_then (G.add_gardener with_core) (λ with_gardener.
            and_then (G.add_authentication with_gardener) (λ scheme. ok (cfg, scheme)))))
