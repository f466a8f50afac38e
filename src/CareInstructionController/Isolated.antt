-- ===== src/CareInstructionController/Isolated.antt =====
-- The handlers for one CareInstruction leave the gardens of the others alone.
use shoot_grafter.Base.{String, Option, ◌≡◌}
use shoot_grafter.Base.Dict.{lookup}
use shoot_grafter.Kube.Client.{Client}
use shoot_grafter.CareInstructionController.{Fleet, Garden}

-- The garden of another CareInstruction is this.
abbrev Other : {Config C : Type 0} → String → Option (Garden Config C) → Fleet Config C → Type 0
Other j there f = lookup j f.gardens ≡ there
