-- ===== src/Tests/Copies.antt =====
-- A CareInstruction in memory, and copies of it.
use shoot_grafter.Base.{ℕ, zero, suc, String, true, Option, none, some, List, [], ◌∷◌, arith}
use shoot_grafter.Base.Dict.{lookup}
use shoot_grafter.Kube.{Condition}
use shoot_grafter.Api.Memory.{
  Ptr, Imported, Cell, Memory, map_cell, label_selector_cell, selector_cell, texts_cell,
  shoots_cell, instruction_cell, items_cell, list_cell, Instruction, pure, copy_through,
}
use shoot_grafter.Api.DeepCopy.{Copiers, maps, deep_copy_instruction, deep_copy_list}
use shoot_grafter.Api.DeepCopy.Rules.{Holds, Copies-through, read_through}
use shoot_grafter.Api.DeepCopy.Parts.{maps-IsKind, Copies-array}
use shoot_grafter.Api.DeepCopy.Reads.{
  Readers, AreDeep, InstructionValue, ListValue, read_array, read_instruction_at, read_list_at,
  read_list, read_items, read_instruction, read_spec, read_status, read_selector,
}
use shoot_grafter.Api.DeepCopy.Apart.{IsApart, Writes, deep_copy-IsApart}

-- Metadata and label selectors are maps, and conditions are plain values.
abbrev simple : Imported
simple = record {
  ObjectMeta = Ptr;
  Conditions = List Condition;
  ListMeta = List String;
  LabelSelector = Ptr;
  Other = Unit {0};
}

abbrev simple_copiers : Copiers simple
simple_copiers = record {
  copy_meta = copy_through (maps simple) (λ m. pure m);
  copy_conditions = λ cs. pure cs;
  copy_list_meta = λ m. pure m;
  copy_label_selector = copy_through (maps simple) (λ m. pure m);
}

abbrev simple_readers : Readers simple
simple_readers = record {
  MetaValue = Option (List (String × String));
  ConditionsValue = List Condition;
  ListMetaValue = List String;
  LabelSelectorValue = Option (List (String × String));
  read_meta = read_through (maps simple) read_array;
  read_conditions = read_array;
  read_list_meta = read_array;
  read_label_selector = read_through (maps simple) read_array;
}

simple-AreDeep : AreDeep simple_readers simple_copiers
simple-AreDeep = record {
  meta = Copies-through (maps simple) (maps-IsKind simple) read_array (λ m. pure m) Copies-array;
  conditions = Copies-array;
  list_meta = Copies-array;
  label_selector =
      Copies-through (maps simple) (maps-IsKind simple) read_array (λ m. pure m) Copies-array;
}

abbrev in_memory : Instruction simple
in_memory = record {
  type_meta = record { kind = "CareInstruction"; api_version = "v1alpha1" };
  object_meta = some 0;
  spec = record {
    garden_cluster_kube_config_secret_name = record { name = ""; key = "" };
    garden_cluster_name = "garden";
    garden_namespace = "project";
    shoot_selector = some 2;
    propagate_labels = some 3;
    additional_labels = some 4;
    additional_annotations = none;
    enable_rbac = true;
    authentication_config_map_name = "auth";
  };
  status = record {
    status_conditions = [];
    shoots = some 5;
    total_target_shoots = 1;
    created_clusters = 1;
    failed_clusters = 0;
    shoot_controller_restart_count = 0;
  };
}

-- What stands at the first addresses.
abbrev nth : List (Cell simple) → ℕ → Option (Cell simple)
nth [] n = none
nth (c ∷ cs) zero = some c
nth (c ∷ cs) (suc n) = nth cs n

abbrev memory : Memory simple
memory = record {
  cell = nth (
      map_cell (("team", "a") ∷ [])
      ∷ label_selector_cell (some 0)
      ∷ selector_cell (record { label_selector = some 1; expression = "true" })
      ∷ texts_cell ("region" ∷ [])
      ∷ map_cell (("tier", "one") ∷ [])
      ∷ shoots_cell (record { name = "a"; status = "Onboarded"; message = "" } ∷ [])
      ∷ instruction_cell in_memory
      ∷ items_cell (in_memory ∷ [])
      ∷ list_cell (record {
        type_meta = record { kind = "CareInstructionList"; api_version = "v1alpha1" };
        list_meta = [];
        items = some 7;
      })
      ∷ []);
  next = 9;
}

abbrev value : InstructionValue simple_readers
value = record {
  type_meta = record { kind = "CareInstruction"; api_version = "v1alpha1" };
  object_meta = some (("team", "a") ∷ []);
  spec = record {
    garden_cluster_kube_config_secret_name = record { name = ""; key = "" };
    garden_cluster_name = "garden";
    garden_namespace = "project";
    shoot_selector =
        some (record { label_selector = some (some (("team", "a") ∷ [])); expression = "true" });
    propagate_labels = some ("region" ∷ []);
    additional_labels = some (λ k. lookup k (("tier", "one") ∷ []));
    additional_annotations = none;
    enable_rbac = true;
    authentication_config_map_name = "auth";
  };
  status = record {
    status_conditions = [];
    shoots = some (record { name = "a"; status = "Onboarded"; message = "" } ∷ []);
    total_target_shoots = 1;
    created_clusters = 1;
    failed_clusters = 0;
    shoot_controller_restart_count = 0;
  };
}

abbrev list_value : ListValue simple_readers
list_value = record {
  type_meta = record { kind = "CareInstructionList"; api_version = "v1alpha1" };
  list_meta = [];
  items = some (value ∷ []);
}

value-Holds : Holds (read_instruction_at simple_readers) 0 memory (some 6) (some value)
unfolding read_instruction_at read_through read_instruction read_spec read_status read_selector
value-Holds = record {
  at = λ g same. ground (
    arith,
    same 6 (omega arith) (omega arith),
    same 0 (omega arith) (omega arith),
    same 2 (omega arith) (omega arith),
    same 1 (omega arith) (omega arith),
    same 3 (omega arith) (omega arith),
    same 4 (omega arith) (omega arith),
    same 5 (omega arith) (omega arith),
  );
}

list-Holds : Holds (read_list_at simple_readers) 0 memory (some 8) (some list_value)
unfolding read_list_at read_list read_items read_through read_instruction read_spec read_status
    read_selector
list-Holds = record {
  at = λ g same. ground (
    arith,
    same 8 (omega arith) (omega arith),
    same 7 (omega arith) (omega arith),
    same 6 (omega arith) (omega arith),
    same 0 (omega arith) (omega arith),
    same 2 (omega arith) (omega arith),
    same 1 (omega arith) (omega arith),
    same 3 (omega arith) (omega arith),
    same 4 (omega arith) (omega arith),
    same 5 (omega arith) (omega arith),
  );
}

-- The labels of the original are replaced, and the new memory is wiped.
abbrev old_writes : Writes simple
old_writes = (4, some (map_cell [])) ∷ (6, none) ∷ []

abbrev new_writes : Writes simple
new_writes = (12, none) ∷ []

deep_copy-IsApart_example :
    IsApart
      (read_instruction_at simple_readers)
      (deep_copy_instruction simple_copiers)
      memory
      (some 6)
      (some value)
      old_writes
      new_writes
    × IsApart
        (read_list_at simple_readers)
        (deep_copy_list simple_copiers)
        memory
        (some 8)
        (some list_value)
        old_writes
        new_writes
deep_copy-IsApart_example =
    deep_copy-IsApart simple_readers simple_copiers simple-AreDeep memory (some 6) (some 8)
      (some value) (some list_value) value-Holds list-Holds old_writes new_writes (omega arith)
      (omega arith)
