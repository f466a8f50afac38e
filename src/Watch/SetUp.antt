-- ===== src/Watch/SetUp.antt =====
-- shoot_controller.go: the predicates that SetupWithManager puts on the watch of Shoots.
use shoot_grafter.Base.{
  String, Bool, true, Option, none, some, List, [], ◌∷◌, ◌++◌, if◌then◌else◌, ◌!=◌,
}
use shoot_grafter.Kube.{Result, ok, err, Shoot, LabelSelector}
use shoot_grafter.Kube.Exec.{Exec, pure}
use shoot_grafter.Api.{ShootSelector}
use shoot_grafter.Api.Lists.{label_selector_of}
use shoot_grafter.ShootController.{ShootController, Externals, Run}
use shoot_grafter.Watch.{Semantic, passes_status_noise, matches_cel}

-- An event of the watch of Shoots.
pub data ShootEvent : Type 0 where
  shoot_created : Shoot → ShootEvent
  shoot_updated : Shoot → Shoot → ShootEvent
  shoot_deleted : Shoot → ShootEvent
  shoot_generic : Shoot → ShootEvent

-- `predicate.Predicate`: a test of events, which may record events of its own.
abbrev pub Predicate : Type 0 → Type 0
Predicate W = ShootEvent → Exec (Run W) Bool

abbrev pub expression_of : Option ShootSelector → String
expression_of none = ""
expression_of (some s) = s.expression

module _ {W : Type 0} (E : Semantic) (X : Externals W)
    -- `predicate.LabelSelectorPredicate`
    (label_predicate : LabelSelector → Result (ShootEvent → Bool)) (r : ShootController W) where
  -- The predicate of `PredicateShootStatusNoise`, which tests updates alone.
  unfoldable pub noise_predicate : Predicate W
  noise_predicate (shoot_created s) = pure true
  noise_predicate (shoot_updated old new) = pure (passes_status_noise E old new)
  noise_predicate (shoot_deleted s) = pure true
  noise_predicate (shoot_generic s) = pure true

  -- `newCELPredicate`: a deletion passes without a test.
  unfoldable pub new_cel_predicate : Predicate W
  new_cel_predicate (shoot_created s) = matches_cel X r s
  new_cel_predicate (shoot_updated old new) = matches_cel X r new
  new_cel_predicate (shoot_deleted s) = pure true
  new_cel_predicate (shoot_generic s) = matches_cel X r s

  abbrev label_predicates : Option LabelSelector → Result (List (Predicate W))
  label_predicates none = ok []
  label_predicates (some s) = elim (label_predicate s) [
    | err e ↦ err e
    | ok p ↦ ok ((λ event. pure (p event)) ∷ [])
  ]

  -- The predicates of `SetupWithManager`.
  unfoldable pub shoot_predicates : Result (List (Predicate W))
  unfolding noise_predicate new_cel_predicate
  shoot_predicates =
      let selector = r.care_instruction.spec.shoot_selector in
      let cel = if expression_of selector != "" then new_cel_predicate ∷ [] else [] in
      elim (label_predicates (label_selector_of selector)) [
        | err e ↦ err e
        | ok labels ↦ ok (noise_predicate ∷ (labels ++ cel))
      ]
