-- ===== src/Status.antt =====
-- controller/careinstruction/status.go: the conditions of a CareInstruction.
pub mod Ready
use shoot_grafter.Base.{
  String, Bool, true, false, Option, none, some, List, [], ◌∷◌, ◌==◌, ◌!=◌, text_dec, if◌then◌else◌,
}
use shoot_grafter.Kube.{Condition}
use shoot_grafter.Kube.Conditions.{ConditionApi, condition_true}
use shoot_grafter.Api.{
  CareInstruction, set_condition, garden_cluster_access_ready, shoot_controller_started_condition,
  shoots_reconciled_condition,
}

abbrev pub known_condition_types : List String
known_condition_types =
    garden_cluster_access_ready ∷ shoot_controller_started_condition ∷ shoots_reconciled_condition
    ∷ []

module _ (C : ConditionApi) where
  -- The loop of `initializeConditionsToUnknown`. (A nil list and an empty one are the same list.)
  unfoldable pub initialize_conditions : List String → CareInstruction → CareInstruction
  unfolding set_condition
  initialize_conditions [] ci = ci
  initialize_conditions (t ∷ ts) ci =
      initialize_conditions ts (elim (C.get_condition_by_type ci.status.conditions t) [
        | none ↦ set_condition C ci (C.unknown_condition t "Unknown" "Condition is unknown")
        | some _ ↦ ci
      ])

  unfoldable pub initialize_conditions_to_unknown : CareInstruction → CareInstruction
  unfolding initialize_conditions
  initialize_conditions_to_unknown = initialize_conditions known_condition_types

  -- The loop of `reconcileStatus`; its first failing condition breaks it.
  unfoldable pub fail_on_sub_condition : List String → CareInstruction → CareInstruction
  unfolding set_condition
  fail_on_sub_condition [] ci = ci
  fail_on_sub_condition (t ∷ ts) ci =
      let rest = fail_on_sub_condition ts ci in
      elim (C.get_condition_by_type ci.status.conditions t) [
        | none ↦ rest
        | some sub ↦
            if sub.status != condition_true
            then set_condition C ci (C.false_condition C.ready_condition sub.reason sub.message)
            else rest
      ]

  unfoldable pub reconcile_status : CareInstruction → CareInstruction
  unfolding fail_on_sub_condition set_condition
  reconcile_status ci =
      fail_on_sub_condition known_condition_types
        (set_condition C ci (C.true_condition C.ready_condition "Ready" "CareInstruction is ready"))
