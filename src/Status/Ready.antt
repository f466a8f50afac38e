-- ===== src/Status/Ready.antt =====
-- What status.go leaves in the conditions.
use shoot_grafter.Base.{
  String, Option, none, some, List, [], ◌∷◌, ◌==◌, if◌then◌else◌, ◌≡◌, ◌≢◌, refl, arith, All,
  contains, inl, inr, Option-cases, or_else,
}
use shoot_grafter.Kube.{Condition}
use shoot_grafter.Kube.Conditions.{
  ConditionApi, IsLawful, condition_true, condition_false, condition_unknown,
}
use text.Mathlib.TextEquality.{eq_iff}
use shoot_grafter.Api.{
  CareInstruction, set_condition, garden_cluster_access_ready, shoot_controller_started_condition,
  shoots_reconciled_condition,
}
use shoot_grafter.Status.{
  known_condition_types, initialize_conditions, initialize_conditions_to_unknown,
  fail_on_sub_condition, reconcile_status,
}

module _ (C : ConditionApi) where
  -- The condition of a type.
  abbrev pub condition : CareInstruction → String → Option Condition
  condition ci t = C.get_condition_by_type ci.status.conditions t

  -- The first of the given types whose condition is there and not true.
  abbrev pub first_failing : (String → Option Condition) → List String → Option Condition
  first_failing get [] = none
  first_failing get (t ∷ ts) =
      let rest = first_failing get ts in
      elim (get t) [ none ↦ rest | some c ↦ if c.status == condition_true then rest else some c ]

  -- The ready condition that stands for it.
  abbrev pub summary : Option Condition → Condition
  summary none = record {
    type = "Ready";
    status = condition_true;
    reason = "Ready";
    message = "CareInstruction is ready";
  }
  summary (some c) = record {
    type = "Ready";
    status = condition_false;
    reason = c.reason;
    message = c.message;
  }

access-ne-ready : garden_cluster_access_ready ≢ "Ready"
access-ne-ready = ground (arith, eq_iff garden_cluster_access_ready "Ready")

started-ne-ready : shoot_controller_started_condition ≢ "Ready"
started-ne-ready = ground (arith, eq_iff shoot_controller_started_condition "Ready")

reconciled-ne-ready : shoots_reconciled_condition ≢ "Ready"
reconciled-ne-ready = ground (arith, eq_iff shoots_reconciled_condition "Ready")

abbrev pub unknown_of : String → Condition
unknown_of t = record {
  type = t;
  status = condition_unknown;
  reason = "Unknown";
  message = "Condition is unknown";
}

module _ (C : ConditionApi) (L : IsLawful C) where
  condition-set_condition :
      (ci : CareInstruction) (c : Condition) (t : String)
      → condition C (set_condition C ci c) t ≡ (if t == c.type then some c else condition C ci t)
  unfolding set_condition
  condition-set_condition ci c t = L.get-set c ci.status.conditions t

  fail_on_sub_condition_lem :
      (ts : List String) (ci : CareInstruction) (t : String)
      → condition C (fail_on_sub_condition C ts ci) t ≡ elim (first_failing C (condition C ci) ts) [
        | none ↦ condition C ci t
        | some c ↦ if t == "Ready" then some (summary C (some c)) else condition C ci t
      ]
  unfolding fail_on_sub_condition
  fail_on_sub_condition_lem [] ci t = refl
  fail_on_sub_condition_lem (u ∷ ts) ci t = elim (Option-cases (condition C ci u)) [
    | inl e ↦ ground (arith, fail_on_sub_condition_lem ts ci t)
    | inr (sub, e) ↦ ground (
      arith,
      fail_on_sub_condition_lem ts ci t,
      L.ready_condition_lem,
      L.false_condition_lem C.ready_condition sub.reason sub.message,
      condition-set_condition ci (C.false_condition C.ready_condition sub.reason sub.message) t,
    )
  ]

  first_failing-agree :
      (f g : String → Option Condition) (ts : List String)
      → All (λ t. f t ≡ g t) ts
      → first_failing C f ts ≡ first_failing C g ts
  first_failing-agree f g [] h = refl
  first_failing-agree f g (t ∷ ts) h = ground (arith, first_failing-agree f g ts h.1)

  abbrev started : CareInstruction → CareInstruction
  started ci =
      set_condition C ci (C.true_condition C.ready_condition "Ready" "CareInstruction is ready")

  started_lem :
      (ci : CareInstruction) (t : String)
      → condition C (started ci) t
        ≡ (if t == "Ready" then some (summary C none) else condition C ci t)
  started_lem ci t = ground (
    arith,
    L.ready_condition_lem,
    L.true_condition_lem C.ready_condition "Ready" "CareInstruction is ready",
    condition-set_condition ci
        (C.true_condition C.ready_condition "Ready" "CareInstruction is ready") t,
  )

  started-agrees :
      (ci : CareInstruction)
      → All (λ t. condition C (started ci) t ≡ condition C ci t) known_condition_types
  started-agrees ci = (
    ground (arith, started_lem ci garden_cluster_access_ready, access-ne-ready),
    (
      ground (arith, started_lem ci shoot_controller_started_condition, started-ne-ready),
      (ground (arith, started_lem ci shoots_reconciled_condition, reconciled-ne-ready), tt),
    ),
  )

  -- After `reconcileStatus` the ready condition is true if no known condition is there and not
  -- true; otherwise it is false and has the reason and message of the first such condition. Every
  -- other condition is as before.
  pub reconcile_status_lem :
      (ci : CareInstruction) (t : String)
      → condition C (reconcile_status C ci) t ≡ (
          if t == "Ready"
          then some (summary C (first_failing C (condition C ci) known_condition_types))
          else condition C ci t)
  unfolding reconcile_status
  reconcile_status_lem ci t = ground (
    arith,
    fail_on_sub_condition_lem known_condition_types (started ci) t,
    first_failing-agree (condition C (started ci)) (condition C ci) known_condition_types
        (started-agrees ci),
    started_lem ci t,
  )

  abbrev unknown : String → Condition
  unknown t = C.unknown_condition t "Unknown" "Condition is unknown"

  initialize_conditions_lem :
      (ts : List String) (ci : CareInstruction) (t : String)
      → condition C (initialize_conditions C ts ci) t
        ≡ or_else (condition C ci t) (if contains t ts then some (unknown_of t) else none)
  unfolding initialize_conditions
  initialize_conditions_lem [] ci t = ground arith
  initialize_conditions_lem (u ∷ ts) ci t = elim (Option-cases (condition C ci u)) [
    | inl e ↦
        rw (e, initialize_conditions)
          (ground (
            arith,
            initialize_conditions_lem ts (set_condition C ci (unknown u)) t,
            condition-set_condition ci (unknown u) t,
            L.unknown_condition_lem u "Unknown" "Condition is unknown",
          ))
    | inr (c, e) ↦ rw (e, initialize_conditions) (ground (arith, initialize_conditions_lem ts ci t))
  ]

  -- After `initializeConditionsToUnknown` a condition that was there is as before, and a known
  -- condition that was not there is unknown. Nothing else is added.
  pub initialize_conditions_to_unknown_lem :
      (ci : CareInstruction) (t : String)
      → condition C (initialize_conditions_to_unknown C ci) t
        ≡ or_else
            (condition C ci t)
            (if contains t known_condition_types then some (unknown_of t) else none)
  unfolding initialize_conditions_to_unknown
  initialize_conditions_to_unknown_lem ci t = initialize_conditions_lem known_condition_types ci t
