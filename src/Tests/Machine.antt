-- ===== src/Tests/Machine.antt =====
-- A second run for a CareInstruction that is served, beside the abstract machine.
use shoot_grafter.Base.{String, []}
use shoot_grafter.ShootController.{Run}
use shoot_grafter.CareInstructionController.{State, garden_key}
use shoot_grafter.CareInstructionController.Handlers.{ensure_created, ensure_deleted}
use shoot_grafter.CareInstructionController.Reached.{begin, run_created}
use shoot_grafter.CareInstructionController.Runners.{Gone, Moves, view}
use shoot_grafter.CareInstructionController.Refines.{ensure_created-Moves}
use shoot_grafter.Tests.Conditions.{greenhouse}
use shoot_grafter.Tests.Maps.{forward}
use shoot_grafter.Tests.Clusters.{Owners, mine, two_clusters}
use shoot_grafter.Tests.Gardens.{gardener, empty}
use shoot_grafter.Tests.Handlers.{serving}
use shoot_grafter.Tests.Isolated.{gardener-IsNaming}

abbrev before_first : Run (State String Owners)
before_first = record { world = empty; events = [] }

abbrev after_first : Run (State String Owners)
after_first = (ensure_created greenhouse gardener forward serving before_first).1

ensure_created-Moves_example :
    Moves
      (garden_key after_first.world.instruction)
      (view after_first.world.fleet)
      (view (ensure_created greenhouse gardener forward serving after_first).1.world.fleet)
    × Gone
        (garden_key after_first.world.instruction)
        (view after_first.world.fleet)
        (view (ensure_deleted greenhouse gardener forward serving after_first).1.world.fleet)
ensure_created-Moves_example =
    ensure_created-Moves greenhouse gardener forward serving gardener-IsNaming after_first
      (run_created before_first (begin two_clusters.world mine))
