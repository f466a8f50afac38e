-- ===== src/CareInstructionController/Owned.antt =====
-- What every change of the garden of one CareInstruction keeps is kept by its handlers.
use shoot_grafter.Base.{String, Option, none, some, ◌≡◌, refl, ◌∙◌, inl, inr, Option-cases}
use shoot_grafter.Base.Dict.{lookup}
use shoot_grafter.Kube.Client.{Client}
use shoot_grafter.Kube.Conditions.{ConditionApi}
use shoot_grafter.Api.{CareInstruction, set_condition}
use shoot_grafter.ShootController.Keeps.{
  Keeps, Keeps-read, Keeps-write, Keeps-bind, Keeps-tried, Keeps-pure, Keeps-raise, Keeps-if,
}
use shoot_grafter.CareInstructionController.{Fleet, Garden, State, GardenApi, garden_key}
use shoot_grafter.CareInstructionController.Manager.{cleanup_care_instruction}
use shoot_grafter.Base.Dict.{MapRange, entries}
use shoot_grafter.Base.{List, ◌==◌, [], ◌∷◌}
use shoot_grafter.Kube.{is_not_found, Cluster}
use shoot_grafter.ShootController.Keeps.{Keeps-attempt}
use shoot_grafter.Api.{auth_config_map_label}
use shoot_grafter.CareInstructionController.Shoots.{Selection}
use shoot_grafter.CareInstructionController.Report.{
  conclude, report, report_with, report_garden, report_reset, reconcile_shoots_n_clusters,
}
use shoot_grafter.CareInstructionController.Handlers.{
  ensure_auth_config_map_labeled, ensure_created, ensure_deleted,
}
use shoot_grafter.CareInstructionController.Rules.{
  Keeps-handle_auth_change, Keeps-annotate_clusters,
}
use shoot_grafter.Kube.{Error}
use shoot_grafter.Base.{Option-cases}
use shoot_grafter.Status.{
  initialize_conditions, initialize_conditions_to_unknown, known_condition_types,
}
use shoot_grafter.CareInstructionController.Alone.{
  IsNaming, IsOwn, Own, Keeps-reconcile_manager, after_change-Own, Keeps-handle_annotation,
}

key-initialize_conditions :
    (C : ConditionApi) (ts : List String) (ci : CareInstruction)
    → garden_key (initialize_conditions C ts ci) ≡ garden_key ci
unfolding initialize_conditions set_condition
key-initialize_conditions C [] ci = refl
key-initialize_conditions C (t ∷ ts) ci =
    elim (Option-cases (C.get_condition_by_type ci.status.conditions t)) [
      | inl e ↦
          rw (initialize_conditions, e)
            (key-initialize_conditions C ts
              (set_condition C ci (C.unknown_condition t "Unknown" "Condition is unknown")))
      | inr (c, e) ↦ rw (initialize_conditions, e) (key-initialize_conditions C ts ci)
    ]

pub key-initialize :
    (C : ConditionApi) (ci : CareInstruction)
    → garden_key (initialize_conditions_to_unknown C ci) ≡ garden_key ci
unfolding initialize_conditions_to_unknown
key-initialize C ci = key-initialize_conditions C known_condition_types ci

module _ {W : Type 0} (C : ConditionApi) (G : GardenApi W) (R : MapRange) (greenhouse : Client W)
    (N : IsNaming G) (key : String) (P : Fleet G.RestConfig (Client W) → Type 0)
    (O : IsOwn key P) where
  abbrev Here : State G.RestConfig W → Type 0
  Here = Own C G R greenhouse N key P O

  Keeps-conclude :
      (sel : Selection) (clusters left : List Cluster) (failed : Option Error)
      → Keeps Here (conclude C G R greenhouse sel clusters left failed)
  unfolding conclude set_condition
  Keeps-conclude sel clusters left failed = Keeps-bind _ _ (Keeps-read _) (λ ci.
      Keeps-bind _ _ (Keeps-read _) (λ conflicts.
        Keeps-bind _ _ (Keeps-write _ (λ st h. h))
          (λ _. Keeps-bind _ _ (Keeps-read _) (λ _. Keeps-write _ (λ st h. h)))))

  Keeps-report : (garden : Client W) → Keeps Here (report C G R greenhouse garden)
  unfolding report
  Keeps-report garden = Keeps-bind _ _ (Keeps-read _) (λ ci.
      Keeps-bind _ _ (Keeps-read _) (λ shoots. Keeps-bind _ _ (Keeps-write _ (λ st h. h)) (λ _.
        Keeps-bind _ _
          (Keeps-handle_auth_change C G R greenhouse (after_change-Own C G R greenhouse N key P O))
          (λ _. Keeps-bind _ _ (Keeps-read _) (λ clusters.
            Keeps-bind _ _ (Keeps-write _ (λ st h. h)) (λ _.
              Keeps-bind _ _
                (Keeps-annotate_clusters C G R greenhouse (λ st w h. h) garden clusters none)
                (λ answer. Keeps-conclude _ clusters answer.0 answer.1)))))))

  Keeps-report_with : (c : Option (Client W)) → Keeps Here (report_with C G R greenhouse c)
  unfolding report_with
  Keeps-report_with none = Keeps-raise _
  Keeps-report_with (some garden) = Keeps-report garden

  Keeps-report_garden :
      (g : Option (Garden G.RestConfig (Client W))) → Keeps Here (report_garden C G R greenhouse g)
  unfolding report_garden
  Keeps-report_garden none = Keeps-raise _
  Keeps-report_garden (some g) =
      Keeps-bind _ _ (Keeps-handle_annotation C G R greenhouse N key P O)
        (λ _. Keeps-report_with g.garden_client)

  Keeps-reconcile_shoots_n_clusters : Keeps Here (reconcile_shoots_n_clusters C G R greenhouse)
  unfolding reconcile_shoots_n_clusters report_reset
  Keeps-reconcile_shoots_n_clusters =
      let kept : Keeps Here (report_reset C G R greenhouse) =
        Keeps-bind _ _ (Keeps-write _ (λ st h. h))
          (λ _. Keeps-bind _ _ (Keeps-read _) (λ found. Keeps-report_garden found)) in
      record { at = λ s h. kept.at s h }

  Keeps-label : Keeps Here (ensure_auth_config_map_labeled C G R greenhouse)
  unfolding ensure_auth_config_map_labeled
  Keeps-label = Keeps-bind _ _ (Keeps-read _) (λ ci.
      Keeps-if (ci.spec.authentication_config_map_name == "") _ _ (λ _. Keeps-pure tt)
        (λ _.
          Keeps-tried _ _ (Keeps-read _)
            (λ e. Keeps-if (is_not_found e) _ _ (λ _. Keeps-pure tt) (λ _. Keeps-raise e))
            (λ cm. elim (Option-cases (lookup auth_config_map_label (entries cm.labels))) [
              | inl e ↦ rw e (Keeps-bind _ _ (Keeps-write _ (λ st h. h)) (λ _. Keeps-pure tt))
              | inr (l, e) ↦ rw e (Keeps-pure tt)
            ])))

  initialized-Here :
      (st : State G.RestConfig W)
      → Here st
      → Here (record st { instruction = initialize_conditions_to_unknown C st.instruction })
  initialized-Here st (k, h) = (key-initialize C st.instruction ∙ k, h)

  pub Keeps-ensure_created : Keeps Here (ensure_created C G R greenhouse)
  unfolding ensure_created set_condition
  Keeps-ensure_created = Keeps-bind _ _ (Keeps-write _ initialized-Here) (λ _.
      Keeps-bind _ _ (Keeps-attempt _ Keeps-label) (λ _.
        Keeps-tried _ _ (Keeps-reconcile_manager C G R greenhouse N key P O)
          (λ e. Keeps-bind _ _ (Keeps-write _ (λ st h. h)) (λ _. Keeps-raise e))
          (λ _.
            Keeps-tried _ _ Keeps-reconcile_shoots_n_clusters (λ e. Keeps-write _ (λ st h. h))
              (λ _. Keeps-pure tt))))

  pub Keeps-ensure_deleted : Keeps Here (ensure_deleted C G R greenhouse)
  unfolding ensure_deleted cleanup_care_instruction set_condition
  Keeps-ensure_deleted =
      Keeps-bind _ _ (Keeps-write _ initialized-Here)
        (λ _. Keeps-write _ (λ st (k, h). (k, rw k (O.removed st.fleet h))))
