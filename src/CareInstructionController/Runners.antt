-- ===== src/CareInstructionController/Runners.antt =====
-- An abstract machine: which start of a manager runs for which CareInstruction. A handler halts
-- the one of its CareInstruction or begins the next one where none runs.
use shoot_grafter.Base.{
  ℕ, ◌+◌, ◌≤◌, String, true, Option, none, some, List, ◌≡◌, if◌then◌else◌, ◌==◌,
}
use shoot_grafter.Base.Dict.{lookup}
use shoot_grafter.CareInstructionController.{Garden, Fleet}
use shoot_grafter.CareInstructionController.Gardens.{has}

-- The start that runs for each key, and the number of the next one.
pub record View : Type 0 where
  pub serving : String → Option ℕ
  pub next : ℕ

-- None runs for the key, and for all others the same ones.
abbrev pub Gone : String → View → View → Type 0
Gone key v w =
    ((k : String) → w.serving k ≡ (if k == key then none else v.serving k)) × (w.next ≡ v.next)

pub data Move (key : String) (v w : View) : Type 0 where
  stay : ((k : String) → w.serving k ≡ v.serving k) → w.next ≡ v.next → Move key v w
  halt :
      ((k : String) → w.serving k ≡ (if k == key then none else v.serving k))
      → w.next ≡ v.next
      → Move key v w
  begin :
      v.serving key ≡ none
      → ((k : String) → w.serving k ≡ (if k == key then some v.next else v.serving k))
      → w.next ≡ 1 + v.next
      → Move key v w

-- A sequence of moves for one key.
pub data Moves (key : String) : View → View → Type 0 where
  done : (v : View) → Moves key v v
  then_moves : (u v w : View) → Move key u v → Moves key v w → Moves key u w

pub snoc : {key : String} {u v : View} (w : View) → Moves key u v → Move key v w → Moves key u w
snoc w (done v) m = then_moves v w w m (done w)
snoc w (then_moves u v x l ms) m = then_moves u v w l (snoc w ms m)

abbrev pub live : Option ℕ → List ℕ → Option ℕ
live none cancelled = none
live (some n) cancelled = if has n cancelled then none else some n

module _ {Config C : Type 0} where
  -- The manager of a garden, unless it was cancelled.
  abbrev pub running : Option (Garden Config C) → List ℕ → Option ℕ
  running none cancelled = none
  running (some g) cancelled = live g.mgr cancelled

  abbrev pub view : Fleet Config C → View
  view f = record { serving = λ k. running (lookup k f.gardens) f.cancelled; next = f.next }

  -- Only starts that were made are cancelled.
  pub record IsMade (f : Fleet Config C) : Type 0 where
    pub made : (n : ℕ) → has n f.cancelled ≡ true → 1 + n ≤ f.next
