-- ===== src/ShootController/Rbac/Outcome.antt =====
-- rbac.go: what SetRBAC makes of the cluster of a Shoot, whatever that cluster answers.
use shoot_grafter.Base.{String, [], if◌then◌else◌, ◌≡◌, refl, inl, inr, Bool-cases}
use shoot_grafter.Kube.{Result, ok, err, Result-cases, is_not_found}
use shoot_grafter.Kube.Exec.{Exec, pure, raise, attempt, ◌>>=◌}
use shoot_grafter.Kube.Client.{
  Client, ClusterRoleBinding, OperationResult, created, updated, unchanged,
}
use shoot_grafter.ShootController.{ShootController, Run, EventType, read, write, emit_event}
use shoot_grafter.ShootController.Rbac.{
  binding_name, desired_role_ref, same_role_ref, mutate_binding, replace_role_ref, report_binding,
  bind_role, set_rbac,
}

module _ {W : Type 0} (r : ShootController W) where
  -- The action succeeds and leaves the clusters like this.
  abbrev Ends : Exec (Run W) (Unit {0}) → Run W → W → Type 0
  Ends m s w = ((m s).0 ≡ ok tt) × ((m s).1.world ≡ w)

  emit_event-Ends :
      (t : EventType) (reason message : String) (s : Run W)
      → Ends (emit_event r t reason message) s s.world
  unfolding emit_event
  emit_event-Ends t reason message s = elim (Bool-cases r.has_event_recorder) [
    | inl e ↦ rw e (refl, refl)
    | inr e ↦ rw e (refl, refl)
  ]

  report_binding-Ends :
      (name : String) (op : OperationResult) (s : Run W) → Ends (report_binding r name op) s s.world
  unfolding report_binding pure
  report_binding-Ends name created s = emit_event-Ends _ _ _ s
  report_binding-Ends name updated s = emit_event-Ends _ _ _ s
  report_binding-Ends name unchanged s = (refl, refl)

  module _ (c : Client W) (name : String) where
    -- The binding is created, or updated to the desired role and the subject of this Shoot.
    abbrev pub with_binding : W → W
    with_binding w =
        (c.create_or_update_cluster_role_binding
          (record {
            name = binding_name;
            subjects = [];
            role_ref = record { api_group = ""; kind = ""; name = "" };
          })
          (mutate_binding r.care_instruction.namespace name) w).1

    abbrev pub after_delete : Result (Unit {0}) → W → W
    after_delete (ok _) w = with_binding w
    after_delete (err e) w = w

    -- What is done, given the answer for the binding that is there.
    abbrev pub after_get : Result ClusterRoleBinding → W → W
    after_get (err e) w = if is_not_found e then with_binding w else w
    after_get (ok b) w =
        if same_role_ref b.role_ref desired_role_ref
        then with_binding w
        else after_delete (c.delete_cluster_role_binding b w).0
            (c.delete_cluster_role_binding b w).1

    bind_role-Ends : (s : Run W) → Ends (bind_role r c name) s (with_binding s.world)
    unfolding bind_role ◌>>=◌ attempt write
    bind_role-Ends s =
        let call =
          c.create_or_update_cluster_role_binding
            (record {
              name = binding_name;
              subjects = [];
              role_ref = record { api_group = ""; kind = ""; name = "" };
            })
            (mutate_binding r.care_instruction.namespace name) s.world in
        elim (Result-cases call.0) [
          | inl ((op, b), e) ↦ rw e (report_binding-Ends name op (record s { world = call.1 }))
          | inr (f, e) ↦ rw e (emit_event-Ends _ _ _ (record s { world = call.1 }))
        ]

    -- SetRBAC never fails. If there is no binding, or one with the desired role, it creates or
    -- updates it; one with another role is deleted first, and is not created again if the deletion
    -- fails; if the binding cannot be read for another reason, nothing is done.
    pub set_rbac_lem :
        (s : Run W)
        → ((set_rbac r c name s).0 ≡ ok tt)
          × ((set_rbac r c name s).1.world
              ≡ after_get (c.get_cluster_role_binding binding_name s.world) s.world)
    unfolding set_rbac replace_role_ref ◌>>=◌ pure raise attempt read write emit_event
    set_rbac_lem s = elim (Result-cases (c.get_cluster_role_binding binding_name s.world)) [
      | inl (b, e) ↦ elim (Bool-cases (same_role_ref b.role_ref desired_role_ref)) [
        | inl y ↦ rw e (rw y (bind_role-Ends s))
        | inr n ↦ elim (Result-cases (c.delete_cluster_role_binding b s.world).0) [
          | inl (u, d) ↦ rw e (
              rw n (
                rw d (
                  bind_role-Ends
                    (record s { world = (c.delete_cluster_role_binding b s.world).1 }))))
          | inr (f, d) ↦ elim (Bool-cases r.has_event_recorder) [
            | inl h ↦ rw e (rw n (rw d (rw h (refl, refl))))
            | inr h ↦ rw e (rw n (rw d (rw h (refl, refl))))
          ]
        ]
      ]
      | inr (f, e) ↦ elim (Bool-cases (is_not_found f)) [
        | inl y ↦ rw e (rw y (bind_role-Ends s))
        | inr n ↦ rw e (rw n (refl, refl))
      ]
    ]
