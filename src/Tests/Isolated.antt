-- ===== src/Tests/Isolated.antt =====
-- A run for a CareInstruction beside the garden of another.
use shoot_grafter.Base.{String, arith, [], ◌∷◌}
use shoot_grafter.ShootController.{Run}
use shoot_grafter.CareInstructionController.{State, garden_key}
use shoot_grafter.CareInstructionController.Alone.{IsNaming}
use shoot_grafter.Tests.Clusters.{Owners, mine}
use shoot_grafter.Tests.Gardens.{gardener, one_garden, first_garden}

abbrev other_key : String
other_key = "greenhouse/other"

-- The garden of `other` is there too.
abbrev two_gardens : Run (State String Owners)
two_gardens = record {
  world = record one_garden {
    fleet = record (one_garden.fleet) {
      gardens = (garden_key mine, first_garden) ∷ (other_key, first_garden) ∷ [];
    };
  };
  events = [];
}

pub gardener-IsNaming : IsNaming gardener
gardener-IsNaming = record { key-patch = λ base ci answer w e. ground arith }
