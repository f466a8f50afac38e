-- ===== src/ShootController/Writes/Bindings.antt =====
-- rbac.go and client.go: what is kept while the role binding of a Shoot is set.
use shoot_grafter.Base.{String, inl, inr, Bool-cases}
use shoot_grafter.Kube.{Shoot}
use shoot_grafter.Kube.Client.{Client, OperationResult, created, updated, unchanged}
use shoot_grafter.ShootController.{ShootController, Externals}
use shoot_grafter.ShootController.Keeps.{
  Keeps, Keeps-read, Keeps-write, Keeps-emit_event, Keeps-bind, Keeps-tried, Keeps-tried_with,
  Keeps-pure, Keeps-raise,
}
use shoot_grafter.ShootController.Rbac.{
  same_role_ref, desired_role_ref, replace_role_ref, report_binding, bind_role, set_rbac, go_on,
  stop,
}
use shoot_grafter.ShootController.Access.{
  get_shoot_cluster_client, IsShootClient, get_shoot_cluster_client-IsShootClient,
}
use shoot_grafter.ShootController.Reconcile.{configure_rbac}
use shoot_grafter.ShootController.Writes.{IsKept}

module _ {W : Type 0} (X : Externals W) (r : ShootController W) (P : W → Type 0)
    (K : IsKept X r P) where
  Keeps-replace_role_ref :
      (c : Client W) (shoot_name : String)
      → IsShootClient X.access c
      → Keeps P (replace_role_ref r c shoot_name)
  unfolding replace_role_ref
  Keeps-replace_role_ref c shoot_name i =
      Keeps-tried _ _ (Keeps-read _) (λ e. Keeps-pure _)
        (λ existing. elim (Bool-cases (same_role_ref existing.role_ref desired_role_ref)) [
          | inl e ↦ rw e (Keeps-pure _)
          | inr e ↦ rw e (
              Keeps-tried _ _ (Keeps-write _ (K.delete_binding c existing i e))
                (λ e. Keeps-bind _ _ (Keeps-emit_event r _ _ _) (λ _. Keeps-pure _))
                (λ _. Keeps-pure _))
        ])

  Keeps-report_binding :
      (shoot_name : String) (op : OperationResult) → Keeps P (report_binding r shoot_name op)
  unfolding report_binding
  Keeps-report_binding shoot_name created = Keeps-emit_event r _ _ _
  Keeps-report_binding shoot_name updated = Keeps-emit_event r _ _ _
  Keeps-report_binding shoot_name unchanged = Keeps-pure tt

  Keeps-bind_role :
      (c : Client W) (shoot_name : String)
      → IsShootClient X.access c
      → Keeps P (bind_role r c shoot_name)
  unfolding bind_role
  Keeps-bind_role c shoot_name i =
      Keeps-tried _ _ (Keeps-write _ (K.write_binding c _ shoot_name i))
        (λ e. Keeps-emit_event r _ _ _) (λ (op, b). Keeps-report_binding shoot_name op)

  Keeps-set_rbac :
      (c : Client W) (shoot_name : String)
      → IsShootClient X.access c
      → Keeps P (set_rbac r c shoot_name)
  unfolding set_rbac
  Keeps-set_rbac c shoot_name i =
      Keeps-bind _ _ (Keeps-replace_role_ref c shoot_name i)
        (elim [ stop ↦ Keeps-pure tt | go_on ↦ Keeps-bind_role c shoot_name i ])

  Keeps-access : (shoot : Shoot) → Keeps P (get_shoot_cluster_client X.access shoot)
  unfolding get_shoot_cluster_client
  Keeps-access shoot = Keeps-bind _ _ (Keeps-write _ (K.create_admin_kubeconfig shoot)) (λ _.
      Keeps-bind _ _ (Keeps-read _) (λ _. Keeps-bind _ _ (Keeps-read _) (λ _.
        Keeps-bind _ _ (Keeps-read _) (λ _. Keeps-bind _ _ (Keeps-read _) (λ _. Keeps-read _)))))

  pub Keeps-configure_rbac : (shoot : Shoot) → Keeps P (configure_rbac X r shoot)
  unfolding configure_rbac
  Keeps-configure_rbac shoot = elim (Bool-cases r.care_instruction.spec.enable_rbac) [
    | inl e ↦ rw e (
        Keeps-tried_with _ _ _ (Keeps-access shoot)
          (get_shoot_cluster_client-IsShootClient X.access shoot)
          (λ e. Keeps-bind _ _ (Keeps-emit_event r _ _ _) (λ _. Keeps-raise e))
          (λ c i. Keeps-bind _ _ (Keeps-set_rbac c shoot.name i) (λ _. Keeps-pure _)))
    | inr e ↦ rw e (Keeps-pure _)
  ]
