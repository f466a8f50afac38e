-- ===== src/Webhook.antt =====
-- webhook/v1alpha1/careinstruction_webhook.go: the default of a CareInstruction.
pub mod Selection
use shoot_grafter.Base.{Option, none, some}
use shoot_grafter.Kube.{Result, ok, err, new_error}
use shoot_grafter.Api.{CareInstruction, ShootSelector}

abbrev pub selector_or_empty : Option ShootSelector → ShootSelector
selector_or_empty none = record { label_selector = none; expression = "" }
selector_or_empty (some s) = s

abbrev pub with_selector : CareInstruction → CareInstruction
with_selector ci = record ci {
  spec = record (ci.spec) { shoot_selector = some (selector_or_empty ci.spec.shoot_selector) };
}

-- `Default`, on a pointer that may be nil
unfoldable pub default_instruction : Option CareInstruction → Result CareInstruction
default_instruction none = err (new_error "expected CareInstruction, got nil")
default_instruction (some ci) = ok (with_selector ci)
