-- ===== src/CareInstructionController/Reached.antt =====
-- All that can happen to the gardens, in any order.
use shoot_grafter.Base.{ℕ, ◌+◌, ◌≤◌, false, [], ◌≡◌}
use shoot_grafter.Base.Dict.{MapRange}
use shoot_grafter.Kube.Client.{Client}
use shoot_grafter.Kube.Conditions.{ConditionApi}
use shoot_grafter.Api.{CareInstruction}
use shoot_grafter.ShootController.{Run}
use shoot_grafter.Metrics.{no_gauges}
use shoot_grafter.CareInstructionController.{State, GardenApi}
use shoot_grafter.CareInstructionController.Gardens.{has, manager_stops}
use shoot_grafter.CareInstructionController.Manager.{
  reconcile_manager, restart_shoot_controller, cleanup_care_instruction,
}
use shoot_grafter.CareInstructionController.Handlers.{ensure_created, ensure_deleted}
use shoot_grafter.CareInstructionController.Kept.{ensure_created-IsSound}
use shoot_grafter.CareInstructionController.Sound.{Runs, IsSound}
use shoot_grafter.CareInstructionController.Sound.Stops.{no_garden-IsSound, manager_stops-IsSound}
use shoot_grafter.CareInstructionController.Lives.{
  reconcile_manager-IsSound, restart_shoot_controller-IsSound,
}

module _ {W : Type 0} (C : ConditionApi) (G : GardenApi W) (R : MapRange)
    (greenhouse : Client W) where
  -- The states that a controller can reach: it starts without gardens; the clusters change and
  -- other CareInstructions come up; the handlers run, as a whole or a part of them; managers end by
  -- themselves.
  pub data IsReached : State G.RestConfig W → Type 0 where
    begin :
        (w : W) (ci : CareInstruction)
        → IsReached (record {
          clusters = w;
          fleet = record { gardens = []; next = 0; cancelled = []; closed = [] };
          instruction = ci;
          shares_spec = false;
          gauges = no_gauges;
        })
    turn_to :
        (st : State G.RestConfig W) (w : W) (ci : CareInstruction)
        → IsReached st
        → IsReached (record st { clusters = w; instruction = ci; shares_spec = false })
    run_created :
        (s : Run (State G.RestConfig W))
        → IsReached s.world
        → IsReached (ensure_created C G R greenhouse s).1.world
    run_deleted :
        (s : Run (State G.RestConfig W))
        → IsReached s.world
        → IsReached (ensure_deleted C G R greenhouse s).1.world
    run_manager :
        (s : Run (State G.RestConfig W))
        → IsReached s.world
        → IsReached (reconcile_manager C G greenhouse s).1.world
    run_restart :
        (st : State G.RestConfig W)
        → IsReached st
        → IsReached (restart_shoot_controller C G greenhouse st)
    run_cleanup :
        (st : State G.RestConfig W)
        → IsReached st
        → IsReached (cleanup_care_instruction C G greenhouse st)
    stop_by_itself :
        (st : State G.RestConfig W) (n : ℕ)
        → 1 + n ≤ st.fleet.next
        → IsReached st
        → IsReached (record st { fleet = manager_stops n st.fleet })

  pub reached-IsSound : (st : State G.RestConfig W) → IsReached st → IsSound st.fleet
  reached-IsSound _ (begin w ci) = no_garden-IsSound
  reached-IsSound _ (turn_to st w ci r) = reached-IsSound st r
  reached-IsSound _ (run_created s r) =
      (ensure_created-IsSound C G R greenhouse s (reached-IsSound s.world r)).0
  reached-IsSound _ (run_deleted s r) =
      (ensure_created-IsSound C G R greenhouse s (reached-IsSound s.world r)).1
  reached-IsSound _ (run_manager s r) =
      reconcile_manager-IsSound C G greenhouse s (reached-IsSound s.world r)
  reached-IsSound _ (run_restart st r) =
      (restart_shoot_controller-IsSound C G greenhouse st (reached-IsSound st r)).0
  reached-IsSound _ (run_cleanup st r) =
      (restart_shoot_controller-IsSound C G greenhouse st (reached-IsSound st r)).1
  reached-IsSound _ (stop_by_itself st n b r) =
      manager_stops-IsSound "" st.fleet (reached-IsSound st r) n b

  -- In every state that can be reached, each start that was made and not cancelled is the manager
  -- of a garden, so that its CareInstruction can still stop it, and two gardens never have the
  -- same manager.
  pub reached-managers :
      (st : State G.RestConfig W)
      → IsReached st
      → ((n : ℕ) → 1 + n ≤ st.fleet.next → has n st.fleet.cancelled ≡ false → Runs st.fleet n)
        × ((n : ℕ) (R Q : Runs st.fleet n) → R.key ≡ Q.key)
  reached-managers st r =
      let S = reached-IsSound st r in
      (
        S.kept,
        λ n R Q.
            S.apart R.key Q.key R.garden Q.garden n R.is_there Q.is_there
              (S.own R.key R.garden n R.is_there R.is_its)
              (S.own Q.key Q.garden n Q.is_there Q.is_its),
      )
