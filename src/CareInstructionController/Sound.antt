-- ===== src/CareInstructionController/Sound.antt =====
-- No garden manager is lost: one that runs is that of a garden, and no two gardens share one.
pub mod Starts
pub mod Stops
use shoot_grafter.Base.{
  ℕ, ◌+◌, ◌≤◌, String, true, false, Option, none, some, [], ◌≡◌, ◌≢◌, ◌⊎◌, refl, sym, ◌∙◌, ap,
  arith, inl, inr, is_some, Option-cases,
}
use shoot_grafter.Base.Dict.{lookup, lookup-nil, lookup-insert, lookup-delete}
use shoot_grafter.Api.{CareInstructionSpec}
use shoot_grafter.CareInstructionController.{Garden, Fleet}
use shoot_grafter.CareInstructionController.Gardens.{
  has, new_garden, register, cancel, stop_manager, stop_existing, started, start, restart, remove,
  manager_stops,
}

-- The garden under the key has the manager of this start.
pub record Runs {Config C : Type 0} (f : Fleet Config C) (n : ℕ) : Type 0 where
  pub key : String
  pub garden : Garden Config C
  pub is_there : lookup key f.gardens ≡ some garden
  pub is_its : garden.mgr ≡ some n

pub record IsSound {Config C : Type 0} (f : Fleet Config C) : Type 0 where
  -- a cancel function is of a start that was made
  pub made :
      (k : String) (g : Garden Config C) (n : ℕ)
      → lookup k f.gardens ≡ some g
      → g.cancel_func ≡ some n
      → 1 + n ≤ f.next
  -- a manager comes with its cancel function
  pub own :
      (k : String) (g : Garden Config C) (n : ℕ)
      → lookup k f.gardens ≡ some g
      → g.mgr ≡ some n
      → g.cancel_func ≡ some n
  -- no two gardens share one
  pub apart :
      (j k : String) (g h : Garden Config C) (n : ℕ)
      → lookup j f.gardens ≡ some g
      → lookup k f.gardens ≡ some h
      → g.cancel_func ≡ some n
      → h.cancel_func ≡ some n
      → j ≡ k
  -- a manager comes with the client of its garden
  pub client :
      (k : String) (g : Garden Config C) (n : ℕ)
      → lookup k f.gardens ≡ some g
      → g.mgr ≡ some n
      → is_some g.garden_client ≡ true
  -- a channel that is closed is of a start that was made
  pub past : (n : ℕ) → has n f.closed ≡ true → 1 + n ≤ f.next
  -- a start that is not cancelled is the manager of a garden
  pub kept : (n : ℕ) → 1 + n ≤ f.next → has n f.cancelled ≡ false → Runs f n

-- The garden has no manager, or one that was cancelled.
pub record IsHalted {Config C : Type 0} (key : String) (f : Fleet Config C) : Type 0 where
  pub halted :
      (g : Garden Config C) (n : ℕ)
      → lookup key f.gardens ≡ some g
      → g.mgr ≡ some n
      → has n f.cancelled ≡ true
