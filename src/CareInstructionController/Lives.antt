-- ===== src/CareInstructionController/Lives.antt =====
-- The handlers of the CareInstruction controller keep the gardens sound.
use shoot_grafter.Base.{ℕ, true, none, some, ◌≡◌, refl, inl, inr, ◌+◌, arith, ◌∷◌}
use shoot_grafter.Base.Dict.{lookup, insert, lookup-insert}
use shoot_grafter.Kube.{Result-cases}
use shoot_grafter.Kube.Exec.{◌>>=◌}
use shoot_grafter.Kube.Client.{Client}
use shoot_grafter.Kube.Conditions.{ConditionApi}
use shoot_grafter.ShootController.{Run, read, write}
use shoot_grafter.ShootController.Keeps.{
  Keeps, Keeps-read, Keeps-write, Keeps-bind, Keeps-tried, Keeps-pure, Keeps-raise, Keeps-if,
}
use shoot_grafter.CareInstructionController.{Garden, Fleet, State, GardenApi, garden_key}
use shoot_grafter.CareInstructionController.Gardens.{has, stop_existing, restart-some}
use shoot_grafter.CareInstructionController.Manager.{
  prepare_manager, recreate_manager, reconcile_manager, restart_shoot_controller,
  cleanup_care_instruction,
}
use shoot_grafter.CareInstructionController.Sound.{IsSound}
use shoot_grafter.CareInstructionController.Sound.Starts.{
  start-IsSound, restart-IsSound, remove-IsSound,
}
use shoot_grafter.CareInstructionController.Sound.Stops.{
  register-IsSound, stop_existing-IsSound, stop_existing-IsHalted,
}

module _ {W : Type 0} (C : ConditionApi) (G : GardenApi W) (greenhouse : Client W) where
  -- The gardens are sound.
  abbrev pub SoundHere : State G.RestConfig W → Type 0
  SoundHere st = IsSound st.fleet

  abbrev pub restarts : State G.RestConfig W → ℕ
  restarts st = st.instruction.status.shoot_controller_restart_count

  Keeps-recreate_manager :
      (config : G.RestConfig) (scheme : G.Scheme)
      → Keeps SoundHere (recreate_manager C G greenhouse config scheme)
  unfolding recreate_manager ◌>>=◌ read write
  Keeps-recreate_manager config scheme = record {
    at = λ s h.
        let ci = s.world.instruction in
        let key = garden_key ci in
        elim (Result-cases (prepare_manager C G greenhouse config scheme ci)) [
          | inl (client, e) ↦ rw e (
              start-IsSound key (stop_existing key s.world.fleet)
                (stop_existing-IsSound key s.world.fleet h)
                (stop_existing-IsHalted key s.world.fleet h) config client ci.spec)
          | inr (f, e) ↦ rw e (stop_existing-IsSound key s.world.fleet h)
        ];
  }

  -- Whatever the clusters answer and wherever it fails, a run of reconcileManager on sound gardens
  -- leaves sound gardens: a manager that was started and not cancelled is that of a garden, and no
  -- two gardens share a manager.
  pub reconcile_manager-IsSound :
      (s : Run (State G.RestConfig W))
      → IsSound s.world.fleet
      → IsSound (reconcile_manager C G greenhouse s).1.world.fleet
  unfolding reconcile_manager
  reconcile_manager-IsSound s h =
      (Keeps-bind {P = SoundHere} _ _ (Keeps-read _) (λ ci. Keeps-bind _ _ (Keeps-read _) (λ hash.
          Keeps-bind _ _ (Keeps-read _) (λ known.
            Keeps-bind _ _
              (Keeps-write _ (λ st h. register-IsSound (garden_key ci) st.fleet h ci.spec hash))
              (λ _. Keeps-bind _ _ (Keeps-write _ (λ st h. h)) (λ _.
                Keeps-tried _ _ (Keeps-read _)
                  (λ e. Keeps-bind _ _ (Keeps-write _ (λ st h. h)) (λ _. Keeps-raise e))
                  (λ (config, scheme). Keeps-bind _ _ (Keeps-write _ (λ st h. h)) (λ _.
                    Keeps-bind _ _ (Keeps-read _) (λ current.
                      Keeps-if current _ _ (λ _. Keeps-pure tt)
                        (λ _. Keeps-recreate_manager config scheme)))))))))).at
        s h

  -- restartShootController and cleanupCareInstruction keep the gardens sound.
  pub restart_shoot_controller-IsSound :
      (st : State G.RestConfig W)
      → IsSound st.fleet
      → IsSound (restart_shoot_controller C G greenhouse st).fleet
        × IsSound (cleanup_care_instruction C G greenhouse st).fleet
  unfolding restart_shoot_controller cleanup_care_instruction
  restart_shoot_controller-IsSound st h = (
    restart-IsSound (garden_key st.instruction) st.fleet h,
    remove-IsSound (garden_key st.instruction) st.fleet h,
  )

  -- If the garden of a CareInstruction has a manager and the gardens are sound, then after
  -- restartShootController its start is cancelled, the garden has no manager, and the count of
  -- restarts is one more; a second call right after does not count.
  pub restart_shoot_controller_lem :
      (st : State G.RestConfig W) (g : Garden G.RestConfig (Client W)) (n : ℕ)
      → IsSound st.fleet
      → lookup (garden_key st.instruction) st.fleet.gardens ≡ some g
      → g.mgr ≡ some n
      → (has n (restart_shoot_controller C G greenhouse st).fleet.cancelled ≡ true)
        × (lookup
              (garden_key st.instruction)
              (restart_shoot_controller C G greenhouse st).fleet.gardens
            ≡ some (record g { mgr = none }))
        × (restarts (restart_shoot_controller C G greenhouse st) ≡ 1 + restarts st)
        × (restarts
              (restart_shoot_controller C G greenhouse (restart_shoot_controller C G greenhouse st))
            ≡ 1 + restarts st)
  unfolding restart_shoot_controller
  restart_shoot_controller_lem st g n h e m =
      let key = garden_key st.instruction in
      let c = h.own key g n e m in
      let halted = record g { mgr = none } in
      let after : Fleet G.RestConfig (Client W) = record (st.fleet) {
        cancelled = n ∷ st.fleet.cancelled;
        gardens = insert key halted st.fleet.gardens;
      } in
      let there : lookup key after.gardens ≡ some halted =
        ground (arith, lookup-insert key key halted st.fleet.gardens) in
      rw (restart-some key st.fleet g n e c, m)
        (rw (restart-some key after halted n there c) (ground arith, there, refl, refl))
