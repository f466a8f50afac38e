-- ===== src/ShootController/Rbac.antt =====
-- controller/shoot/rbac.go: the permissions of Greenhouse on a Shoot's own cluster.
pub mod Outcome
use shoot_grafter.Base.{String, ◌<>◌, Bool, ◌&&◌, [], ◌∷◌, if◌then◌else◌, ◌==◌}
use shoot_grafter.Kube.{ok, err, is_not_found}
use shoot_grafter.Kube.Exec.{Exec, pure, attempt, ◌>>=◌}
use shoot_grafter.Kube.Client.{
  Client, ClusterRoleBinding, RoleRef, OperationResult, created, updated, unchanged,
}
use shoot_grafter.ShootController.{ShootController, Run, read, write, emit_event, normal, warning}

abbrev pub binding_name : String
binding_name = "greenhouse:system:cluster-admin"

abbrev pub desired_role_ref : RoleRef
desired_role_ref = record {
  api_group = "rbac.authorization.k8s.io";
  kind = "ClusterRole";
  name = "cluster-admin";
}

-- Go's `==` on the struct
abbrev pub same_role_ref : RoleRef → RoleRef → Bool
same_role_ref a b = a.api_group == b.api_group && (a.kind == b.kind && a.name == b.name)

-- `greenhouseSATemplate`, filled in
abbrev pub service_account : String → String → String
service_account org shoot_name = "greenhouse:system:serviceaccount:" <> (org <> (":" <> shoot_name))

-- The function that `CreateOrUpdate` applies to the binding.
unfoldable pub mutate_binding : String → String → ClusterRoleBinding → ClusterRoleBinding
mutate_binding org shoot_name b = record b {
  subjects =
      record {
        kind = "User";
        api_group = "rbac.authorization.k8s.io";
        name = service_account org shoot_name;
      }
      ∷ [];
  role_ref = desired_role_ref;
}

-- What is done about the binding that is there.
pub data Found : Type 0 where
  go_on stop : Found

module _ {W : Type 0} (r : ShootController W) where
  abbrev at_shoot : String → String
  at_shoot shoot_name =
      binding_name <> (" for shoot " <> (r.care_instruction.namespace <> ("/" <> shoot_name)))

  -- A binding with another RoleRef, which cannot be changed, is deleted.
  unfoldable pub replace_role_ref : Client W → String → Exec (Run W) Found
  replace_role_ref shoot_client shoot_name = do
    got ← attempt (read (shoot_client.get_cluster_role_binding binding_name))
    elim got [
      | err e ↦ pure (if is_not_found e then go_on else stop)
      | ok existing ↦
          if same_role_ref existing.role_ref desired_role_ref
          then pure go_on
          else (attempt (write (shoot_client.delete_cluster_role_binding existing)) >>= λ deleted.
              elim deleted [
                | ok _ ↦ pure go_on
                | err e ↦
                    emit_event r warning "RBACOperationFailed" (
                      "Failed to delete ClusterRoleBinding "
                      <> (existing.name
                          <> (" for shoot "
                              <> (r.care_instruction.namespace
                                  <> ("/" <> (shoot_name <> (": " <> e.message)))))))
                    >>= λ _. pure stop
              ])
    ]

  -- An event for what became of the binding.
  unfoldable pub report_binding : String → OperationResult → Exec (Run W) (Unit {0})
  report_binding shoot_name created =
      emit_event r normal "RBACCreated" ("Created ClusterRoleBinding " <> at_shoot shoot_name)
  report_binding shoot_name updated =
      emit_event r normal "RBACUpdated" ("Updated ClusterRoleBinding " <> at_shoot shoot_name)
  report_binding shoot_name unchanged = pure tt

  unfoldable pub bind_role : Client W → String → Exec (Run W) (Unit {0})
  bind_role shoot_client shoot_name = do
    result ← attempt (
        write (
          shoot_client.create_or_update_cluster_role_binding
            (record {
              name = binding_name;
              subjects = [];
              role_ref = record { api_group = ""; kind = ""; name = "" };
            })
            (mutate_binding r.care_instruction.namespace shoot_name)))
    elim result [
      | err e ↦ emit_event r warning "RBACOperationFailed" (
          "Failed to create or update ClusterRoleBinding "
          <> (at_shoot shoot_name <> (": " <> e.message)))
      | ok (op, _) ↦ report_binding shoot_name op
    ]

  -- `SetRBAC`
  unfoldable pub set_rbac : Client W → String → Exec (Run W) (Unit {0})
  set_rbac shoot_client shoot_name = do
    found ← replace_role_ref shoot_client shoot_name
    elim found [ stop ↦ pure tt | go_on ↦ bind_role shoot_client shoot_name ]
