-- ===== src/Api/Lists.antt =====
-- careinstruction_types.go: ListShoots and ListClusters.
use shoot_grafter.Base.{Option, none, some, List, [], ◌∷◌}
use shoot_grafter.Kube.{LabelSelector, Shoot, Cluster, Result, ok, err, wrap}
use shoot_grafter.Kube.Client.{
  Client, ListOption, in_namespace, matching_labels, matching_labels_selector,
}
use shoot_grafter.Api.{CareInstruction, ShootSelector, care_instruction_label}

-- The option for a label selector, which `metav1.LabelSelectorAsSelector` may refuse.
abbrev pub selector_option :
    (LabelSelector → Result LabelSelector) → Option LabelSelector → Result (List ListOption)
selector_option as_selector none = ok []
selector_option as_selector (some s) = elim (as_selector s) [
  | ok selector ↦ ok (matching_labels_selector selector ∷ [])
  | err e ↦ err (wrap "invalid label selector" e)
]

abbrev pub label_selector_of : Option ShootSelector → Option LabelSelector
label_selector_of none = none
label_selector_of (some s) = s.label_selector

module _ {W : Type 0} where
  -- `ListShoots`
  unfoldable pub list_selected_shoots :
      (LabelSelector → Result LabelSelector) → CareInstruction → Client W → W → Result (List Shoot)
  list_selected_shoots as_selector c garden w =
      elim (selector_option as_selector (label_selector_of c.spec.shoot_selector)) [
        | ok selected ↦ garden.list_shoots (in_namespace c.spec.garden_namespace ∷ selected) w
        | err e ↦ err e
      ]

  -- `ListClusters`
  unfoldable pub list_own_clusters : CareInstruction → Client W → W → Result (List Cluster)
  list_own_clusters c greenhouse w =
      greenhouse.list_clusters
        (in_namespace c.namespace ∷ matching_labels care_instruction_label c.name ∷ []) w
