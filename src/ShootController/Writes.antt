-- ===== src/ShootController/Writes.antt =====
-- The writes of Reconcile: what is kept by these writes alone is kept by every run.
pub mod Authentication
pub mod Bindings
pub mod Steps
use shoot_grafter.Base.{
  String, Bool, true, false, none, some, ◌≡◌, ◌≢◌, ◌∙◌, ap, ◌<>◌, inl, inr, Option-cases,
  Bool-cases, ◌||◌, is_some, ◌==◌, ◌!=◌, text_dec,
}
use text.Mathlib.Text.{find?}
use mathlib.Core.Logic.{if_pos, if_neg}
use shoot_grafter.Base.Dict.{lookup, entries}
use shoot_grafter.Kube.{
  Error, is_conflict, is_not_found, ObjectKey, Cluster, ConfigMap, Secret, Shoot,
}
use shoot_grafter.Kube.Exec.{pure, ◌>>=◌}
use shoot_grafter.Kube.Client.{
  Client, ClusterRoleBinding, OperationResult, created, updated, unchanged,
}
use shoot_grafter.Api.{care_instruction_label, auth_config_map_label}
use shoot_grafter.ShootController.{ShootController, Externals, normal, done, emit_event}
use shoot_grafter.ShootController.Keeps.{
  Keeps, Keeps-read, Keeps-write, Keeps-attempt, Keeps-emit_event, Keeps-bind, Keeps-tried,
  Keeps-tried_with, Keeps-pure, Keeps-raise,
}
use shoot_grafter.ShootController.SecretData.{mutate_secret, api_server_url}
use shoot_grafter.ShootController.Auth.{
  annotate_shoot_for_reconcile, with_operation, with_auth_label, mutate_config_map,
  with_care_instruction_label, needs_label, needs_update, referring, fetch_auth_config_map,
  write_config_map, label_shoot, refer_to_config_map, configure_oidc_authentication, value_of,
  auth_config_map_key, is_changed,
}
use shoot_grafter.ShootController.Rbac.{
  same_role_ref, desired_role_ref, mutate_binding, replace_role_ref, report_binding, bind_role,
  set_rbac, go_on, stop,
}
use shoot_grafter.ShootController.Access.{
  get_shoot_cluster_client, expiration_seconds, IsShootClient,
  get_shoot_cluster_client-IsShootClient,
}
use shoot_grafter.ShootController.Reconcile.{
  Existing, foreign, absent, found, handle_deleted_shoot, configure_oidc, configure_rbac,
  report_secret, report_oidc, new_secret, write_secret, onboard, reconcile_shoot, modified_text,
  with_existing, ignore_not_found, qualified,
}

-- `P` is kept by each write that Reconcile may make, under the conditions under which it may make
-- it.
pub record IsKept {W : Type 0} (X : Externals W) (r : ShootController W) (P : W → Type 0)
    : Type 0 where
  -- a Cluster is deleted only if it is labelled as this CareInstruction's
  pub delete_own :
      (c : Cluster)
      → lookup care_instruction_label (entries c.labels) ≡ some r.care_instruction.name
      → (w : W) → P w
      → P (r.greenhouse_client.delete_cluster c w).1
  -- the Secret of a Shoot: its name and the namespace of the CareInstruction
  pub write_secret :
      (shoot : Shoot) (url ca : String) (w : W)
      → P w
      → P
          (r.greenhouse_client.create_or_update_secret
            (new_secret X r shoot url ca)
            (mutate_secret X.names X.copy_labels r.care_instruction shoot url ca)
            w).1
  -- the label of the Greenhouse ConfigMap, if it is not there
  pub label_config_map :
      (cm : ConfigMap)
      → lookup auth_config_map_label (entries cm.labels) ≡ none
      → (w : W) → P w
      → P (r.greenhouse_client.patch_config_map cm (with_auth_label cm) w).1
  -- the ConfigMap of the garden, in the namespace of the Shoot
  pub write_config_map :
      (fresh : ConfigMap) (content : String)
      → content ≢ ""
      → (w : W) → P w
      → P
          (r.garden_client.create_or_update_config_map fresh
            (mutate_config_map r.care_instruction content)
            w).1
  pub label_shoot :
      (shoot : Shoot) (w : W)
      → P w
      → P
          (r.garden_client.patch_shoot shoot
            (with_care_instruction_label r.care_instruction shoot)
            w).1
  pub annotate_shoot :
      (shoot : Shoot) (w : W)
      → P w
      → P (r.garden_client.patch_shoot shoot (with_operation shoot) w).1
  pub refer_to_config_map :
      (shoot : Shoot) (name : String) (w : W)
      → P w
      → P (r.garden_client.update_shoot (referring shoot name) w).1
  pub create_admin_kubeconfig :
      (shoot : Shoot) (w : W)
      → P w
      → P (X.access.create_admin_kubeconfig shoot expiration_seconds w).1
  -- the binding of a Shoot's cluster, deleted only if its role is another one
  pub delete_binding :
      (c : Client W) (b : ClusterRoleBinding)
      → IsShootClient X.access c
      → same_role_ref b.role_ref desired_role_ref ≡ false
      → (w : W) → P w
      → P (c.delete_cluster_role_binding b w).1
  pub write_binding :
      (c : Client W) (fresh : ClusterRoleBinding) (shoot_name : String)
      → IsShootClient X.access c
      → (w : W) → P w
      → P
          (c.create_or_update_cluster_role_binding fresh
            (mutate_binding r.care_instruction.namespace shoot_name)
            w).1
