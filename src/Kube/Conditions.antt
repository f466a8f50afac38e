-- ===== src/Kube/Conditions.antt =====
-- The condition lists of Greenhouse (`api/meta/v1alpha1`): an interface, and what is relied on.
use shoot_grafter.Base.{String, Bool, true, Option, none, some, List, ◌≡◌, ◌≢◌, ◌↔◌}
use shoot_grafter.Base.{◌==◌, if◌then◌else◌, All}
use shoot_grafter.Kube.{Condition}

pub record ConditionApi : Type 0 where
  -- `SetConditions(c)`, of the list
  pub set_condition : Condition → List Condition → List Condition
  pub get_condition_by_type : List Condition → String → Option Condition
  pub true_condition : String → String → String → Condition
  pub false_condition : String → String → String → Condition
  pub unknown_condition : String → String → String → Condition
  -- `(*Condition).IsTrue`, on a pointer that may be nil
  pub is_true : Option Condition → Bool
  pub is_ready_true : List Condition → Bool
  -- `greenhousemetav1alpha1.ReadyCondition`
  pub ready_condition : String

abbrev pub condition_true : String
condition_true = "True"

abbrev pub condition_false : String
condition_false = "False"

abbrev pub condition_unknown : String
condition_unknown = "Unknown"

-- What the Greenhouse documentation says of these functions.
pub record IsLawful (C : ConditionApi) : Type 0 where
  pub get-set :
      (c : Condition) (cs : List Condition) (t : String)
      → C.get_condition_by_type (C.set_condition c cs) t
        ≡ (if t == c.type then some c else C.get_condition_by_type cs t)
  pub get-eq-none_iff :
      (cs : List Condition) (t : String)
      → (C.get_condition_by_type cs t ≡ none) ↔ All (λ c. c.type ≢ t) cs
  pub true_condition_lem :
      (t r m : String)
      → C.true_condition t r m
        ≡ record { type = t; status = condition_true; reason = r; message = m }
  pub false_condition_lem :
      (t r m : String)
      → C.false_condition t r m
        ≡ record { type = t; status = condition_false; reason = r; message = m }
  pub unknown_condition_lem :
      (t r m : String)
      → C.unknown_condition t r m
        ≡ record { type = t; status = condition_unknown; reason = r; message = m }
  pub is_true_iff : (c : Condition) → (C.is_true (some c) ≡ true) ↔ (c.status ≡ condition_true)
  pub ready_condition_lem : C.ready_condition ≡ "Ready"
