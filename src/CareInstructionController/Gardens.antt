-- ===== src/CareInstructionController/Gardens.antt =====
-- careinstruction_controller.go: the changes of the map of gardens.
use shoot_grafter.Base.{
  ℕ, ◌+◌, String, Bool, false, Option, none, some, List, [], ◌∷◌, is_some, nat_eq, ◌||◌, ◌≡◌, refl,
  ap,
}
use shoot_grafter.Base.Dict.{lookup, insert, delete}
use shoot_grafter.Api.{CareInstructionSpec}
use shoot_grafter.CareInstructionController.{Garden, Fleet}

-- Whether the start is among those.
abbrev pub has : ℕ → List ℕ → Bool
has n [] = false
has n (m ∷ ms) = nat_eq n m || has n ms

module _ {Config C : Type 0} where
  -- A garden without a manager.
  abbrev pub new_garden : CareInstructionSpec → String → Garden Config C
  new_garden spec hash = record {
    mgr = none;
    garden_config = none;
    garden_client = none;
    care_instruction_spec = spec;
    cancel_func = none;
    stop_chan = none;
    auth_config_map_hash = hash;
  }

  -- The garden is added if it is not there.
  unfoldable pub register : String → CareInstructionSpec → String → Fleet Config C → Fleet Config C
  register key spec hash f = elim (lookup key f.gardens) [
    | none ↦ record f { gardens = insert key (new_garden spec hash) f.gardens }
    | some _ ↦ f
  ]

  -- A call of a cancel function that may be nil.
  abbrev pub cancel : Option ℕ → Fleet Config C → Fleet Config C
  cancel none f = f
  cancel (some n) f = record f { cancelled = n ∷ f.cancelled }

  -- What `reconcileManager` does with a garden that has a manager.
  abbrev pub stop_manager : Option ℕ → Option ℕ → Fleet Config C → Fleet Config C
  stop_manager none cancel_func f = f
  stop_manager (some _) cancel_func f = cancel cancel_func f

  unfoldable pub stop_existing : String → Fleet Config C → Fleet Config C
  stop_existing key f = elim (lookup key f.gardens) [
    | none ↦ f
    | some g ↦ stop_manager g.mgr g.cancel_func f
  ]

  -- A new manager, context and channel for the garden.
  abbrev pub started : Config → C → CareInstructionSpec → ℕ → Garden Config C → Garden Config C
  started config client spec n g = record g {
    garden_config = some config;
    garden_client = some client;
    mgr = some n;
    cancel_func = some n;
    stop_chan = some n;
    care_instruction_spec = spec;
  }

  unfoldable pub start : String → Config → C → CareInstructionSpec → Fleet Config C → Fleet Config C
  start key config client spec f = elim (lookup key f.gardens) [
    | none ↦ f
    | some g ↦ record f {
      gardens = insert key (started config client spec f.next g) f.gardens;
      next = 1 + f.next;
    }
  ]

  -- `restartShootController`, and whether it counts as a restart.
  unfoldable pub restart : String → Fleet Config C → Bool × Fleet Config C
  restart key f = elim (lookup key f.gardens) [
    | none ↦ (false, f)
    | some g ↦ elim g.cancel_func [
      | none ↦ (false, f)
      | some n ↦ (
        is_some g.mgr,
        record f {
          cancelled = n ∷ f.cancelled;
          gardens = insert key (record g { mgr = none }) f.gardens;
        },
      )
    ]
  ]

  -- The end of a garden in `cleanupCareInstruction`.
  unfoldable pub remove : String → Fleet Config C → Fleet Config C
  remove key f = elim (lookup key f.gardens) [
    | none ↦ f
    | some g ↦ elim g.cancel_func [
      | none ↦ f
      | some n ↦ record f { cancelled = n ∷ f.cancelled; gardens = delete key f.gardens }
    ]
  ]

  -- A new hash of the auth ConfigMap.
  unfoldable pub set_hash : String → String → Fleet Config C → Fleet Config C
  set_hash key hash f = elim (lookup key f.gardens) [
    | none ↦ f
    | some g ↦ record f {
      gardens = insert key (record g { auth_config_map_hash = hash }) f.gardens;
    }
  ]

  -- A change of the specification that the garden points to.
  unfoldable pub set_spec : String → CareInstructionSpec → Fleet Config C → Fleet Config C
  set_spec key spec f = elim (lookup key f.gardens) [
    | none ↦ f
    | some g ↦ record f {
      gardens = insert key (record g { care_instruction_spec = spec }) f.gardens;
    }
  ]

  -- The end of the goroutine of a start, for whatever reason.
  unfoldable pub manager_stops : ℕ → Fleet Config C → Fleet Config C
  manager_stops n f = record f { closed = n ∷ f.closed }

  pub remove-some :
      (key : String) (f : Fleet Config C) (g : Garden Config C) (n : ℕ)
      → lookup key f.gardens ≡ some g
      → g.cancel_func ≡ some n
      → remove key f ≡ record f { cancelled = n ∷ f.cancelled; gardens = delete key f.gardens }
  unfolding remove
  remove-some key f g n e c = rw (remove, e, c) refl

  pub restart-some :
      (key : String) (f : Fleet Config C) (g : Garden Config C) (n : ℕ)
      → lookup key f.gardens ≡ some g
      → g.cancel_func ≡ some n
      → restart key f ≡ (
        is_some g.mgr,
        record f {
          cancelled = n ∷ f.cancelled;
          gardens = insert key (record g { mgr = none }) f.gardens;
        },
      )
  unfolding restart
  restart-some key f g n e c =
      rw (restart, e, c)
        (ap
          (λ x. (
            is_some g.mgr,
            record f {
              cancelled = n ∷ f.cancelled;
              gardens = insert key (record g { mgr = none; cancel_func = x }) f.gardens;
            },
          ))
          c)
