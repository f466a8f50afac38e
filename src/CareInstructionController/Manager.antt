-- ===== src/CareInstructionController/Manager.antt =====
-- careinstruction_controller.go: the manager of the garden of a CareInstruction.
use shoot_grafter.Base.{
  ℕ, ◌+◌, String, Bool, true, false, not, ◌&&◌, ◌||◌, Option, none, some, if◌then◌else◌, ◌!=◌,
  is_some,
}
use shoot_grafter.Base.Dict.{lookup}
use shoot_grafter.Kube.{wrap, Result, ok, err, is_not_found, ConfigMap}
use shoot_grafter.Kube.Exec.{Exec, pure, raise, attempt, ◌>>=◌}
use shoot_grafter.Kube.Client.{Client}
use shoot_grafter.Kube.Conditions.{ConditionApi}
use shoot_grafter.Api.{
  CareInstruction, set_condition, garden_cluster_access_ready, shoot_controller_started_condition,
  delete_condition,
}
use shoot_grafter.ShootController.{Run, read, write}
use shoot_grafter.ShootController.Auth.{value_of, auth_config_map_key}
use shoot_grafter.CareInstructionController.{Garden, Fleet, State, GardenApi, garden_key}
use shoot_grafter.CareInstructionController.Gardens.{
  has, register, stop_existing, start, restart, remove,
}
use shoot_grafter.CareInstructionController.Access.{and_then, get_garden_cluster_access}

module _ {W : Type 0} (C : ConditionApi) (G : GardenApi W) (greenhouse : Client W) where
  abbrev pub Here : Type 0
  Here = State G.RestConfig W

  -- `hashAuthConfigMap`
  unfoldable pub hash_auth_config_map : ConfigMap → String
  hash_auth_config_map cm = G.sha256 (value_of auth_config_map_key cm.contents)

  -- The hash that a new garden starts with.
  abbrev seeded : Result ConfigMap → Result String
  seeded (ok cm) = ok (hash_auth_config_map cm)
  seeded (err e) = if is_not_found e then ok "" else err e

  unfoldable pub initial_hash : Here → Result String
  unfolding hash_auth_config_map
  initial_hash st =
      let ci = st.instruction in
      if not (is_some (lookup (garden_key ci) st.fleet.gardens))
        && ci.spec.authentication_config_map_name != ""
      then seeded (
          greenhouse.get_config_map
            (record { namespace = ci.namespace; name = ci.spec.authentication_config_map_name })
            st.clusters)
      else ok ""

  abbrev set_on_instruction : (CareInstruction → CareInstruction) → Exec (Run Here) (Unit {0})
  set_on_instruction f = write (λ st. (ok tt, record st { instruction = f st.instruction }))

  abbrev on_fleet :
      (Fleet G.RestConfig (Client W) → Fleet G.RestConfig (Client W)) → Exec (Run Here) (Unit {0})
  on_fleet f = write (λ st. (ok tt, record st { fleet = f st.fleet }))

  -- The garden's pointer may have been set to the specification of the object at hand.
  abbrev share_spec_if : Bool → Exec (Run Here) (Unit {0})
  share_spec_if b = write (λ st. (ok tt, record st { shares_spec = b || st.shares_spec }))

  -- The non-blocking receive: a channel that is nil counts as open.
  abbrev channel_open : Option ℕ → Fleet G.RestConfig (Client W) → Bool
  channel_open none f = true
  channel_open (some n) f = not (has n f.closed)

  -- Whether the manager of the garden can go on as it is.
  abbrev garden_is_current : G.RestConfig → Here → Option (Garden G.RestConfig (Client W)) → Bool
  garden_is_current config st none = false
  garden_is_current config st (some g) =
      is_some g.mgr
      && C.is_true (
          C.get_condition_by_type st.instruction.status.conditions
            shoot_controller_started_condition)
      && G.same_config g.garden_config (some config)
      && G.same_spec g.care_instruction_spec st.instruction.spec
      && is_some g.stop_chan
      && channel_open g.stop_chan st.fleet

  unfoldable pub is_current : G.RestConfig → Here → Bool
  is_current config st =
      garden_is_current config st (lookup (garden_key st.instruction) st.fleet.gardens)

  abbrev wrapped_index : Result (Unit {0}) → Result (Unit {0})
  wrapped_index (ok u) = ok u
  wrapped_index (err e) = err (wrap "failed to add field index for CareInstructionLabel" e)

  -- The client, and the manager with its index and the shoot controller.
  unfoldable pub prepare_manager : G.RestConfig → G.Scheme → CareInstruction → Result (Client W)
  prepare_manager config scheme ci = and_then (G.new_client config scheme) (λ client.
      and_then (G.new_manager config scheme ci.spec.garden_namespace) (λ _.
        and_then (wrapped_index (G.index_field config))
          (λ _. and_then (G.set_up_shoot_controller config ci) (λ _. ok client))))

  -- The existing manager is stopped, and a new one is started.
  unfoldable pub recreate_manager : G.RestConfig → G.Scheme → Exec (Run Here) (Unit {0})
  recreate_manager config scheme = do
    ci ← read (λ st. ok st.instruction)
    _ ← on_fleet (stop_existing (garden_key ci))
    client ← read (λ _. prepare_manager config scheme ci)
    _ ← on_fleet (start (garden_key ci) config client ci.spec)
    _ ← share_spec_if true
    set_on_instruction
        (λ c. set_condition C c (C.true_condition shoot_controller_started_condition "Started" ""))

  unfoldable pub reconcile_manager : Exec (Run Here) (Unit {0})
  reconcile_manager = do
    ci ← read (λ st. ok st.instruction)
    hash ← read initial_hash
    known ← read (λ st. ok (is_some (lookup (garden_key ci) st.fleet.gardens)))
    _ ← on_fleet (register (garden_key ci) ci.spec hash)
    _ ← share_spec_if (not known)
    access ← attempt (read (λ st. get_garden_cluster_access C G greenhouse ci st.clusters))
    elim access [
      | err e ↦
          set_on_instruction (λ c.
            set_condition C c
              (C.false_condition garden_cluster_access_ready "GardenClusterAccessError" e.message))
          >>= λ _. raise e
      | ok (config, scheme) ↦
          set_on_instruction (λ c.
            set_condition C c
              (C.true_condition garden_cluster_access_ready "GardenClusterAccessReady" ""))
          >>= λ _. read (λ st. ok (is_current config st)) >>= λ current.
              if current then pure tt else recreate_manager config scheme
    ]

  abbrev counted : Bool → CareInstruction → CareInstruction
  counted true ci = record ci {
    status = record (ci.status) {
      shoot_controller_restart_count = 1 + ci.status.shoot_controller_restart_count;
    };
  }
  counted false ci = ci

  -- `restartShootController`
  unfoldable pub restart_shoot_controller : Here → Here
  restart_shoot_controller st =
      let (counts, fleet) = restart (garden_key st.instruction) st.fleet in
      record st { fleet = fleet; instruction = counted counts st.instruction }

  -- `cleanupCareInstruction`
  unfoldable pub cleanup_care_instruction : Here → Here
  cleanup_care_instruction st = record st {
    instruction =
        set_condition C st.instruction
          (C.false_condition delete_condition "PendingDeletion" "CareInstruction is being deleted");
    fleet = remove (garden_key st.instruction) st.fleet;
  }
