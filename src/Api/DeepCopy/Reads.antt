-- ===== src/Api/DeepCopy/Reads.antt =====
-- What the API types are as values: all that is read through their references.
use shoot_grafter.Base.{String, Option, none, some, List, [], ◌∷◌}
use shoot_grafter.Base.Dict.{Dict, lookup}
use shoot_grafter.Api.{ShootStatus}
use shoot_grafter.Api.Memory.{
  Ptr, Imported, Memory, SelectorOver, SpecOver, StatusOver, InstructionOver, ListOver, Selector,
  Spec, Status, Instruction, InstructionList,
}
use shoot_grafter.Api.DeepCopy.{
  Copiers, instructions, lists, selectors, label_selectors, text_arrays, maps, shoot_arrays,
  item_arrays,
}
use shoot_grafter.Api.DeepCopy.Rules.{read_through, Copies}

-- The values of the structs of other packages.
pub record Readers (T : Imported) : Type 1 where
  pub MetaValue : Type 0
  pub ConditionsValue : Type 0
  pub ListMetaValue : Type 0
  pub LabelSelectorValue : Type 0
  pub read_meta : T.ObjectMeta → Memory T → Option MetaValue
  pub read_conditions : T.Conditions → Memory T → Option ConditionsValue
  pub read_list_meta : T.ListMeta → Memory T → Option ListMetaValue
  pub read_label_selector : T.LabelSelector → Memory T → Option LabelSelectorValue

-- The copies of other packages are deep.
pub record AreDeep {T : Imported} (D : Readers T) (I : Copiers T) : Type 0 where
  pub meta : Copies D.read_meta I.copy_meta
  pub conditions : Copies D.read_conditions I.copy_conditions
  pub list_meta : Copies D.read_list_meta I.copy_list_meta
  pub label_selector : Copies D.read_label_selector I.copy_label_selector

abbrev pub and_read {ℓ κ} : {A : Type ℓ} {B : Type κ} → Option A → (A → Option B) → Option B
and_read none f = none
and_read (some a) f = f a

-- A map is what it holds under each key.
abbrev pub MapValue : Type 0
MapValue = Option (String → Option String)

module _ {T : Imported} where
  abbrev pub read_array : {A : Type 0} → List A → Memory T → Option (List A)
  read_array xs g = some xs

  abbrev pub read_entries : Dict String → Memory T → Option (String → Option String)
  read_entries m g = some (λ k. lookup k m)

  abbrev pub read_shoot_status : ShootStatus → Memory T → Option ShootStatus
  read_shoot_status s g = some s

module _ {T : Imported} (D : Readers T) where
  abbrev pub SelectorValue : Type 0
  SelectorValue = SelectorOver (Option D.LabelSelectorValue)

  abbrev pub SpecValue : Type 0
  SpecValue = SpecOver (Option SelectorValue) (Option (List String)) MapValue

  abbrev pub StatusValue : Type 0
  StatusValue = StatusOver D.ConditionsValue (Option (List ShootStatus))

  abbrev pub InstructionValue : Type 0
  InstructionValue = InstructionOver D.MetaValue SpecValue StatusValue

  abbrev pub ListValue : Type 0
  ListValue = ListOver D.ListMetaValue (Option (List InstructionValue))

  unfoldable pub read_selector : Selector → Memory T → Option SelectorValue
  read_selector s g =
      and_read (read_through (label_selectors T) D.read_label_selector s.label_selector g)
        (λ l. some (record { label_selector = l; expression = s.expression }))

  unfoldable pub read_spec : Spec → Memory T → Option SpecValue
  read_spec s g =
      and_read (read_through (selectors T) read_selector s.shoot_selector g) (λ selector.
        and_read (read_through (text_arrays T) read_array s.propagate_labels g) (λ propagated.
          and_read (read_through (maps T) read_entries s.additional_labels g) (λ labels.
            and_read (read_through (maps T) read_entries s.additional_annotations g) (λ annotations.
              some (record {
                garden_cluster_kube_config_secret_name = s.garden_cluster_kube_config_secret_name;
                garden_cluster_name = s.garden_cluster_name;
                garden_namespace = s.garden_namespace;
                shoot_selector = selector;
                propagate_labels = propagated;
                additional_labels = labels;
                additional_annotations = annotations;
                enable_rbac = s.enable_rbac;
                authentication_config_map_name = s.authentication_config_map_name;
              })))))

  unfoldable pub read_status : Status T → Memory T → Option StatusValue
  read_status s g = and_read (D.read_conditions s.status_conditions g) (λ conditions.
      and_read (read_through (shoot_arrays T) read_array s.shoots g) (λ shoots. some (record {
        status_conditions = conditions;
        shoots = shoots;
        total_target_shoots = s.total_target_shoots;
        created_clusters = s.created_clusters;
        failed_clusters = s.failed_clusters;
        shoot_controller_restart_count = s.shoot_controller_restart_count;
      })))

  unfoldable pub read_instruction : Instruction T → Memory T → Option InstructionValue
  read_instruction c g = and_read (D.read_meta c.object_meta g) (λ meta.
      and_read (read_spec c.spec g) (λ spec. and_read (read_status c.status g) (λ status.
        some
          (record { type_meta = c.type_meta; object_meta = meta; spec = spec; status = status }))))

  unfoldable pub read_items : List (Instruction T) → Memory T → Option (List InstructionValue)
  read_items [] g = some []
  read_items (c ∷ items) g =
      and_read (read_instruction c g) (λ v. and_read (read_items items g) (λ vs. some (v ∷ vs)))

  unfoldable pub read_list : InstructionList T → Memory T → Option ListValue
  read_list l g = and_read (D.read_list_meta l.list_meta g) (λ meta.
      and_read (read_through (item_arrays T) read_items l.items g)
        (λ items. some (record { type_meta = l.type_meta; list_meta = meta; items = items })))

  -- What is read through a pointer to a CareInstruction, and to a list of them.
  unfoldable pub read_instruction_at : Ptr → Memory T → Option (Option InstructionValue)
  read_instruction_at p g = read_through (instructions T) read_instruction p g

  unfoldable pub read_list_at : Ptr → Memory T → Option (Option ListValue)
  read_list_at p g = read_through (lists T) read_list p g
