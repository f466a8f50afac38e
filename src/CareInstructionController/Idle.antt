-- ===== src/CareInstructionController/Idle.antt =====
-- A second run of reconcileManager leaves the manager alone.
use shoot_grafter.Base.{String, false, ◌||◌, some, ◌≡◌, refl, ap, ◌∙◌}
use shoot_grafter.Base.Dict.{lookup}
use shoot_grafter.Kube.{ok}
use shoot_grafter.Kube.Exec.{pure, attempt, ◌>>=◌}
use shoot_grafter.Kube.Client.{Client}
use shoot_grafter.Kube.Conditions.{ConditionApi, IsLawful}
use shoot_grafter.Api.{CareInstruction, CareInstructionSpec}
use shoot_grafter.ShootController.{Run, read, write}
use shoot_grafter.CareInstructionController.{Garden, Fleet, State, GardenApi, garden_key}
use shoot_grafter.CareInstructionController.Gardens.{register}
use shoot_grafter.CareInstructionController.Access.{get_garden_cluster_access}
use shoot_grafter.CareInstructionController.Manager.{initial_hash, reconcile_manager}
use shoot_grafter.CareInstructionController.Sound.{IsSound}
use shoot_grafter.CareInstructionController.Steady.{
  IsReflexive, IsSettled, access_ready-current, access-same, key-same,
}
use shoot_grafter.CareInstructionController.Again.{reconcile_manager-Settled}

module _ {W : Type 0} (C : ConditionApi) (L : IsLawful C) (G : GardenApi W) (D : IsReflexive G)
    (greenhouse : Client W) where
  known_hash :
      (st : State G.RestConfig W) (g : Garden G.RestConfig (Client W))
      → lookup (garden_key st.instruction) st.fleet.gardens ≡ some g
      → initial_hash C G greenhouse st ≡ ok ""
  unfolding initial_hash
  known_hash st g l = rw (initial_hash, l) refl

  register-known :
      (key : String) (spec : CareInstructionSpec) (hash : String)
      (f : Fleet G.RestConfig (Client W)) (g : Garden G.RestConfig (Client W))
      → lookup key f.gardens ≡ some g
      → register key spec hash f ≡ f
  unfolding register
  register-known key spec hash f g l = rw (register, l) refl

  -- A run on a state like that leaves the gardens as they are.
  settled_run :
      (ci : CareInstruction) (w : W) (s : Run (State G.RestConfig W))
      → IsSettled C L G D greenhouse ci w s.world
      → ((reconcile_manager C G greenhouse s).0 ≡ ok tt)
        × ((reconcile_manager C G greenhouse s).1.world.fleet ≡ s.world.fleet)
  unfolding reconcile_manager ◌>>=◌ read write attempt pure
  settled_run ci w s h =
      let st = s.world in
      let key = key-same C L G D greenhouse ci st.instruction h.same in
      let there : lookup (garden_key st.instruction) st.fleet.gardens ≡ some h.garden =
        ap (λ k. lookup k st.fleet.gardens) key ∙ h.is_there in
      let access : get_garden_cluster_access C G greenhouse st.instruction st.clusters
          ≡ ok (h.config, h.scheme) =
        access-same C L G D greenhouse ci st.instruction st.clusters h.same
        ∙ rw h.clusters h.access in
      let ready =
        access_ready-current C L G D greenhouse h.config
          (record st { shares_spec = false || st.shares_spec }) "GardenClusterAccessReady" ""
          h.current in
      rw (known_hash st h.garden there) (
        rw there (
          rw
            (register-known (garden_key st.instruction) st.instruction.spec "" st.fleet h.garden
              there)
            (rw access (rw ready (refl, refl)))))

  -- For sound gardens, and configurations that are equal to themselves: if reconcileManager
  -- succeeds, a second run right after succeeds too and leaves the gardens as they are, so that no
  -- manager is stopped or started without need.
  pub reconcile_manager-twice :
      (s : Run (State G.RestConfig W))
      → IsSound s.world.fleet
      → (reconcile_manager C G greenhouse s).0 ≡ ok tt
      → ((reconcile_manager C G greenhouse (reconcile_manager C G greenhouse s).1).0 ≡ ok tt)
        × ((reconcile_manager C G greenhouse (reconcile_manager C G greenhouse s).1).1.world.fleet
            ≡ (reconcile_manager C G greenhouse s).1.world.fleet)
  reconcile_manager-twice s h e =
      settled_run s.world.instruction s.world.clusters (reconcile_manager C G greenhouse s).1 (
        (reconcile_manager-Settled C L G D greenhouse s.world.instruction s.world.clusters).at s tt
          (refl, refl, h) e)
