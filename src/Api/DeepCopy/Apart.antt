-- ===== src/Api/DeepCopy/Apart.antt =====
-- A copy and its original do not share memory.
use shoot_grafter.Base.{ℕ, ◌≤◌, ◌<◌, Option, some, List, [], ◌∷◌, ◌≡◌, refl, ◌∙◌, arith, All}
use shoot_grafter.Api.Memory.{Ptr, Imported, Cell, Memory, Cmd, store}
use shoot_grafter.Api.DeepCopy.{
  Copiers, instructions, lists, instruction_into, list_into, deep_copy_instruction, deep_copy_list,
}
use shoot_grafter.Api.DeepCopy.Rules.{Holds, Copies, Copies-through}
use shoot_grafter.Api.DeepCopy.Reads.{
  Readers, AreDeep, InstructionValue, ListValue, read_instruction, read_list, read_instruction_at,
  read_list_at,
}
use shoot_grafter.Api.DeepCopy.Copied.{
  instructions-IsKind, lists-IsKind, Copies-instruction, Copies-list,
}

-- Writes to addresses, in their order.
abbrev pub Writes : Imported → Type 0
Writes T = List (ℕ × Option (Cell T))

module _ {T : Imported} where
  unfoldable pub written : Writes T → Memory T → Memory T
  unfolding store
  written [] h = h
  written ((a, c) ∷ ws) h = written ws (store T a c h)

  -- All writes are to addresses that were in use, or all to others.
  abbrev pub AllBelow : ℕ → Writes T → Type 0
  AllBelow n ws = All (λ w. w.0 < n) ws

  abbrev pub AllFrom : ℕ → Writes T → Type 0
  AllFrom n ws = All (λ w. n ≤ w.0) ws

  below-Same :
      (n : ℕ) (ws : Writes T) (h : Memory T)
      → AllBelow n ws
      → (a : ℕ) → n ≤ a
      → (written ws h).cell a ≡ h.cell a
  unfolding written store
  below-Same n [] h below a l = refl
  below-Same n ((b, c) ∷ ws) h (first, below) a l =
      below-Same n ws (store T b c h) below a l ∙ ground arith

  from-Same :
      (n : ℕ) (ws : Writes T) (h : Memory T)
      → AllFrom n ws
      → (a : ℕ) → a < n
      → (written ws h).cell a ≡ h.cell a
  unfolding written store
  from-Same n [] h from a l = refl
  from-Same n ((b, c) ∷ ws) h (first, from) a l =
      from-Same n ws (store T b c h) from a l ∙ ground arith

  -- The copy succeeds. It reads as the original did, after any later writes to what was in use
  -- before, and the original reads as before, after any later writes elsewhere.
  pub record IsApart {V : Type 0} (read : Ptr → Memory T → Option (Option V))
      (copy : Ptr → Cmd T Ptr) (h : Memory T) (p : Ptr) (v : Option V) (old new : Writes T)
      : Type 0 where
    pub copied : Ptr
    pub after : Memory T
    pub runs : copy p h ≡ some (copied, after)
    pub copy_reads : read copied (written old after) ≡ some v
    pub original_reads : read p (written new after) ≡ some v

  Copies-IsApart :
      {V : Type 0} (read : Ptr → Memory T → Option (Option V)) (copy : Ptr → Cmd T Ptr)
      → Copies read copy
      → (h : Memory T) (p : Ptr) (v : Option V) → Holds read 0 h p v
      → (old new : Writes T) → AllBelow h.next old
      → AllFrom h.next new
      → IsApart read copy h p v old new
  Copies-IsApart read copy copies h p v r old new below from =
      let c = copies.at h p v r in
      record {
        copied = c.value;
        after = c.after;
        runs = c.runs;
        copy_reads =
            c.post.at (written old c.after) (λ a l _. below-Same h.next old c.after below a l);
        original_reads =
            r.at (written new c.after)
              (λ a _ l. from-Same h.next new c.after from a l ∙ c.adds.kept a l);
      }

module _ {T : Imported} (D : Readers T) (I : Copiers T) (L : AreDeep D I) where
  -- If the copies of the structs of other packages are deep, then DeepCopy of a CareInstruction, and
  -- of a list of them, all of whose references are to memory in use, succeeds; the copy reads as the
  -- original, also after later writes to memory that was in use before, and the original reads as
  -- before, also after later writes to memory that was not.
  pub deep_copy-IsApart :
      (h : Memory T) (p q : Ptr) (v : Option (InstructionValue D)) (w : Option (ListValue D))
      → Holds (read_instruction_at D) 0 h p v
      → Holds (read_list_at D) 0 h q w
      → (old new : Writes T) → AllBelow h.next old
      → AllFrom h.next new
      → IsApart (read_instruction_at D) (deep_copy_instruction I) h p v old new
        × IsApart (read_list_at D) (deep_copy_list I) h q w old new
  unfolding read_instruction_at read_list_at deep_copy_instruction deep_copy_list
  deep_copy-IsApart h p q v w r s old new below from = (
    Copies-IsApart (read_instruction_at D) (deep_copy_instruction I)
        (Copies-through (instructions T) (instructions-IsKind T) (read_instruction D)
          (instruction_into I) (Copies-instruction D I L))
        h p v r old new below from,
    Copies-IsApart (read_list_at D) (deep_copy_list I)
        (Copies-through (lists T) (lists-IsKind T) (read_list D) (list_into I) (Copies-list D I L))
        h q w s old new below from,
  )
