-- ===== src/Api/DeepCopy.antt =====
-- api/v1alpha1/zz_generated.deepcopy.go: the generated copies of the API types.
pub mod Rules
pub mod Reads
pub mod Parts
pub mod Copied
pub mod Apart
use shoot_grafter.Base.{ℕ, String, Option, none, some, List, [], ◌∷◌}
use shoot_grafter.Base.Dict.{Dict, copy}
use shoot_grafter.Api.{ShootStatus}
use shoot_grafter.Api.Memory.{
  Ptr, Imported, Cell, Cmd, Kind, Memory, instruction_cell, list_cell, spec_cell, status_cell,
  selector_cell, shoot_status_cell, label_selector_cell, texts_cell, map_cell, shoots_cell,
  items_cell, other_cell, Selector, Spec, Status, Instruction, InstructionList, pure, ◌>>=◌,
  copy_through,
}

module _ (T : Imported) where
  abbrev pub instructions : Kind T (Instruction T)
  instructions = record {
    put = instruction_cell;
    get = elim [ some (instruction_cell x) ↦ some x | _ ↦ none ];
  }

  abbrev pub lists : Kind T (InstructionList T)
  lists = record { put = list_cell; get = elim [ some (list_cell x) ↦ some x | _ ↦ none ] }

  abbrev pub specs : Kind T Spec
  specs = record { put = spec_cell; get = elim [ some (spec_cell x) ↦ some x | _ ↦ none ] }

  abbrev pub statuses : Kind T (Status T)
  statuses = record { put = status_cell; get = elim [ some (status_cell x) ↦ some x | _ ↦ none ] }

  abbrev pub selectors : Kind T Selector
  selectors = record {
    put = selector_cell;
    get = elim [ some (selector_cell x) ↦ some x | _ ↦ none ];
  }

  abbrev pub shoot_statuses : Kind T ShootStatus
  shoot_statuses = record {
    put = shoot_status_cell;
    get = elim [ some (shoot_status_cell x) ↦ some x | _ ↦ none ];
  }

  abbrev pub label_selectors : Kind T T.LabelSelector
  label_selectors = record {
    put = label_selector_cell;
    get = elim [ some (label_selector_cell x) ↦ some x | _ ↦ none ];
  }

  abbrev pub text_arrays : Kind T (List String)
  text_arrays = record { put = texts_cell; get = elim [ some (texts_cell x) ↦ some x | _ ↦ none ] }

  abbrev pub maps : Kind T (Dict String)
  maps = record { put = map_cell; get = elim [ some (map_cell x) ↦ some x | _ ↦ none ] }

  abbrev pub shoot_arrays : Kind T (List ShootStatus)
  shoot_arrays = record {
    put = shoots_cell;
    get = elim [ some (shoots_cell x) ↦ some x | _ ↦ none ];
  }

  abbrev pub item_arrays : Kind T (List (Instruction T))
  item_arrays = record { put = items_cell; get = elim [ some (items_cell x) ↦ some x | _ ↦ none ] }

-- The copies of the structs of other packages.
pub record Copiers (T : Imported) : Type 0 where
  pub copy_meta : T.ObjectMeta → Cmd T T.ObjectMeta
  pub copy_conditions : T.Conditions → Cmd T T.Conditions
  pub copy_list_meta : T.ListMeta → Cmd T T.ListMeta
  pub copy_label_selector : T.LabelSelector → Cmd T T.LabelSelector

-- `make` and `copy` of a slice of plain values
abbrev copy_array : {T : Imported} {A : Type 0} → List A → Cmd T (List A)
copy_array xs = pure xs

-- `make` and the loop over the entries of a map
abbrev copy_entries : {T : Imported} → Dict String → Cmd T (Dict String)
copy_entries m = pure (copy [] m)

module _ {T : Imported} (I : Copiers T) where
  -- `DeepCopyInto` of a `ShootSelector`: the result is what `out` then holds.
  unfoldable pub selector_into : Selector → Cmd T Selector
  unfolding copy_through
  selector_into s = do
    p ← copy_through (label_selectors T) I.copy_label_selector s.label_selector
    pure (record s { label_selector = p })

  unfoldable pub shoot_status_into : ShootStatus → Cmd T ShootStatus
  shoot_status_into s = pure s

  unfoldable pub spec_into : Spec → Cmd T Spec
  unfolding copy_through
  spec_into s = do
    selector ← copy_through (selectors T) selector_into s.shoot_selector
    propagated ← copy_through (text_arrays T) copy_array s.propagate_labels
    labels ← copy_through (maps T) copy_entries s.additional_labels
    annotations ← copy_through (maps T) copy_entries s.additional_annotations
    pure (record s {
      shoot_selector = selector;
      propagate_labels = propagated;
      additional_labels = labels;
      additional_annotations = annotations;
    })

  unfoldable pub status_into : Status T → Cmd T (Status T)
  unfolding copy_through
  status_into s = do
    conditions ← I.copy_conditions s.status_conditions
    shoots ← copy_through (shoot_arrays T) copy_array s.shoots
    pure (record s { status_conditions = conditions; shoots = shoots })

  unfoldable pub instruction_into : Instruction T → Cmd T (Instruction T)
  unfolding spec_into status_into
  instruction_into c = do
    meta ← I.copy_meta c.object_meta
    spec ← spec_into c.spec
    status ← status_into c.status
    pure (record c { object_meta = meta; spec = spec; status = status })

  -- The loop over the items.
  unfoldable pub items_into : List (Instruction T) → Cmd T (List (Instruction T))
  unfolding instruction_into
  items_into [] = pure []
  items_into (c ∷ items) = do c' ← instruction_into c; items' ← items_into items; pure (c' ∷ items')

  unfoldable pub list_into : InstructionList T → Cmd T (InstructionList T)
  unfolding items_into copy_through
  list_into l = do
    meta ← I.copy_list_meta l.list_meta
    items ← copy_through (item_arrays T) items_into l.items
    pure (record l { list_meta = meta; items = items })

  -- `DeepCopy` of each type, through a pointer that may be nil.
  unfoldable pub deep_copy_instruction : Ptr → Cmd T Ptr
  deep_copy_instruction p = copy_through (instructions T) instruction_into p

  unfoldable pub deep_copy_list : Ptr → Cmd T Ptr
  deep_copy_list p = copy_through (lists T) list_into p

  unfoldable pub deep_copy_spec : Ptr → Cmd T Ptr
  deep_copy_spec p = copy_through (specs T) spec_into p

  unfoldable pub deep_copy_status : Ptr → Cmd T Ptr
  deep_copy_status p = copy_through (statuses T) status_into p

  unfoldable pub deep_copy_selector : Ptr → Cmd T Ptr
  deep_copy_selector p = copy_through (selectors T) selector_into p

  unfoldable pub deep_copy_shoot_status : Ptr → Cmd T Ptr
  deep_copy_shoot_status p = copy_through (shoot_statuses T) shoot_status_into p

  -- A `runtime.Object` that is not nil.
  pub data Object : Type 0 where
    instruction_object list_object : ℕ → Object

  abbrev object_of : (ℕ → Object) → Ptr → Option Object
  object_of con none = none
  object_of con (some p) = some (con p)

  -- `DeepCopyObject`: nil, and no interface value over a nil pointer, for a nil receiver
  unfoldable pub instruction_copy_object : Ptr → Cmd T (Option Object)
  instruction_copy_object p = deep_copy_instruction p >>= λ c. pure (object_of instruction_object c)

  unfoldable pub list_copy_object : Ptr → Cmd T (Option Object)
  list_copy_object p = deep_copy_list p >>= λ c. pure (object_of list_object c)
