-- ===== src/Api/Memory.antt =====
-- The memory that pointers, slices and maps refer to, for the generated copies of the API types.
use shoot_grafter.Base.{ℕ, suc, String, Bool, Option, none, some, List, nat_eq, if◌then◌else◌}
use shoot_grafter.Base.Dict.{Dict}
use shoot_grafter.Api.{SecretKeyReference, ShootStatus}

-- A pointer, or the reference of a slice to its elements or of a map to its entries: nil or an
-- address. A slice is the whole of its array.
abbrev pub Ptr : Type 0
Ptr = Option ℕ

-- The structs of careinstruction_types.go over the types of what they refer to: over `Ptr` they are
-- what stands in memory, and over values what is read through the references.
pub record SelectorOver (LabelSelectorRef : Type 0) : Type 0 where
  pub label_selector : LabelSelectorRef
  pub expression : String

pub record SpecOver (SelectorRef TextsRef MapRef : Type 0) : Type 0 where
  pub garden_cluster_kube_config_secret_name : SecretKeyReference
  pub garden_cluster_name : String
  pub garden_namespace : String
  pub shoot_selector : SelectorRef
  pub propagate_labels : TextsRef
  pub additional_labels : MapRef
  pub additional_annotations : MapRef
  pub enable_rbac : Bool
  pub authentication_config_map_name : String

pub record StatusOver (Conditions StatusesRef : Type 0) : Type 0 where
  pub status_conditions : Conditions
  pub shoots : StatusesRef
  pub total_target_shoots : ℕ
  pub created_clusters : ℕ
  pub failed_clusters : ℕ
  pub shoot_controller_restart_count : ℕ

-- `metav1.TypeMeta`
pub record TypeMeta : Type 0 where
  pub kind : String
  pub api_version : String

pub record InstructionOver (Meta Spec Status : Type 0) : Type 0 where
  pub type_meta : TypeMeta
  pub object_meta : Meta
  pub spec : Spec
  pub status : Status

pub record ListOver (ListMeta Items : Type 0) : Type 0 where
  pub type_meta : TypeMeta
  pub list_meta : ListMeta
  pub items : Items

-- The structs of other packages, and what else stands in memory.
pub record Imported : Type 1 where
  pub ObjectMeta : Type 0
  pub Conditions : Type 0
  pub ListMeta : Type 0
  pub LabelSelector : Type 0
  pub Other : Type 0

abbrev pub Selector : Type 0
Selector = SelectorOver Ptr

abbrev pub Spec : Type 0
Spec = SpecOver Ptr Ptr Ptr

module _ (T : Imported) where
  abbrev pub Status : Type 0
  Status = StatusOver T.Conditions Ptr

  abbrev pub Instruction : Type 0
  Instruction = InstructionOver T.ObjectMeta Spec Status

  abbrev pub InstructionList : Type 0
  InstructionList = ListOver T.ListMeta Ptr

  -- What stands at an address.
  pub data Cell : Type 0 where
    instruction_cell : Instruction → Cell
    list_cell : InstructionList → Cell
    spec_cell : Spec → Cell
    status_cell : Status → Cell
    selector_cell : Selector → Cell
    shoot_status_cell : ShootStatus → Cell
    label_selector_cell : T.LabelSelector → Cell
    texts_cell : List String → Cell
    map_cell : Dict String → Cell
    shoots_cell : List ShootStatus → Cell
    items_cell : List Instruction → Cell
    other_cell : T.Other → Cell

  -- The cells, and the first address that was never in use.
  pub record Memory : Type 0 where
    pub cell : ℕ → Option Cell
    pub next : ℕ

  -- `none` is a fault: a pointer to no value of its type.
  abbrev pub Cmd {ℓ} : Type ℓ → Type ℓ
  Cmd A = Memory → Option (A × Memory)

  -- How the values of a type stand in cells.
  pub record Kind (S : Type 0) : Type 0 where
    pub put : S → Cell
    pub get : Option Cell → Option S

  unfoldable pub store : ℕ → Option Cell → Memory → Memory
  store p c h = record h { cell = λ a. if nat_eq a p then c else h.cell a }

  -- `new` or `make`, with what is then written there
  unfoldable pub allocate : Cell → Cmd ℕ
  unfolding store
  allocate c h = some (h.next, record (store h.next (some c) h) { next = suc h.next })

module _ {ℓ κ} {T : Imported} {A : Type ℓ} {B : Type κ} where
  abbrev pub and_then : Option (A × Memory T) → (A → Cmd T B) → Option (B × Memory T)
  and_then none f = none
  and_then (some (a, h)) f = f a h

  infixl 5 ◌>>=◌
  abbrev pub ◌>>=◌ : Cmd T A → (A → Cmd T B) → Cmd T B
  ◌>>=◌ m f h = and_then (m h) f

abbrev pub pure {ℓ} : {T : Imported} {A : Type ℓ} → A → Cmd T A
pure a h = some (a, h)

module _ {T : Imported} where
  -- A read through an address.
  unfoldable pub load : {S : Type 0} → Kind T S → ℕ → Cmd T S
  load K p h = elim (K.get (h.cell p)) [ none ↦ none | some s ↦ some (s, h) ]

  -- The copy of what a pointer refers to: nil for nil, and else a new address.
  unfoldable pub copy_through : {S : Type 0} → Kind T S → (S → Cmd T S) → Ptr → Cmd T Ptr
  unfolding load allocate
  copy_through K into none = pure none
  copy_through K into (some p) = do
    s ← load K p
    s' ← into s
    p' ← allocate T (K.put s')
    pure (some p')
