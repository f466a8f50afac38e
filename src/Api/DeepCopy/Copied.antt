-- ===== src/Api/DeepCopy/Copied.antt =====
-- The copies of whole objects are deep.
use shoot_grafter.Base.{◌≢◌, some, List, [], ◌∷◌, ◌≡◌, refl, arith}
use shoot_grafter.Api.Memory.{Ptr, Imported, Memory, Status, Instruction, InstructionList}
use shoot_grafter.Api.DeepCopy.{
  Copiers, status_into, instruction_into, items_into, list_into, instructions, lists, shoot_arrays,
  item_arrays,
}
use shoot_grafter.Api.DeepCopy.Rules.{
  Holds, Holds-later, Extends-trans, Extends-refl, le_refl, Runs, Runs-pure, Runs-copy,
  Runs-copy_here, Copies, Copies-through, IsKind, read_through,
}
use shoot_grafter.Api.DeepCopy.Reads.{
  Readers, AreDeep, read_array, StatusValue, InstructionValue, ListValue, read_spec, read_status,
  read_instruction, read_items, read_list,
}
use shoot_grafter.Api.DeepCopy.Parts.{Copies-array, Copies-spec}

module _ (T : Imported) where
  pub instructions-IsKind : IsKind (instructions T)
  instructions-IsKind = record { get-put = λ s. refl; get-none = refl }

  pub lists-IsKind : IsKind (lists T)
  lists-IsKind = record { get-put = λ s. refl; get-none = refl }

  shoot_arrays-IsKind : IsKind (shoot_arrays T)
  shoot_arrays-IsKind = record { get-put = λ s. refl; get-none = refl }

  item_arrays-IsKind : IsKind (item_arrays T)
  item_arrays-IsKind = record { get-put = λ s. refl; get-none = refl }

module _ {T : Imported} (D : Readers T) (I : Copiers T) (L : AreDeep D I) where
  status-parts :
      (s : Status T) (v : StatusValue D) (g : Memory T)
      → read_status D s g ≡ some v
      → (D.read_conditions s.status_conditions g ≡ some v.status_conditions)
        × (read_through (shoot_arrays T) read_array s.shoots g ≡ some v.shoots)
  unfolding read_status
  status-parts s v g e = ground arith

  status-same :
      (s : Status T) (v : StatusValue D) (g g' : Memory T) (conditions : T.Conditions)
      (shoots : Ptr)
      → read_status D s g ≡ some v
      → D.read_conditions conditions g' ≡ some v.status_conditions
      → read_through (shoot_arrays T) read_array shoots g' ≡ some v.shoots
      → read_status D (record s { status_conditions = conditions; shoots = shoots }) g' ≡ some v
  unfolding read_status
  status-same s v g g' conditions shoots e a b = ground arith

  Copies-status : Copies (read_status D) (status_into I)
  unfolding status_into
  Copies-status = record {
    at = λ h s v r.
        Runs-copy _ _ L.conditions (Extends-refl h)
          (record { at = λ g same. (status-parts s v g (r.at g same)).0 })
          (λ conditions _ e1 _ c1.
            Runs-copy _ _
              (Copies-through (shoot_arrays T) (shoot_arrays-IsKind T) read_array _ Copies-array) e1
              (record { at = λ g same. (status-parts s v g (r.at g same)).1 })
              (λ shoots _ _ f2 c2. Runs-pure _ _ (record {
                at = λ g same.
                    status-same s v h g conditions shoots (r.at h (λ a b c. refl))
                      ((Holds-later h.next f2 le_refl c1).at g same) (c2.at g same);
              })));
  }

  instruction-parts :
      (s : Instruction T) (v : InstructionValue D) (g : Memory T)
      → read_instruction D s g ≡ some v
      → (D.read_meta s.object_meta g ≡ some v.object_meta)
        × (read_spec D s.spec g ≡ some v.spec)
        × (read_status D s.status g ≡ some v.status)
        × (s.type_meta ≡ v.type_meta)
  unfolding read_instruction
  instruction-parts s v g e = ground arith

  pub Copies-instruction : Copies (read_instruction D) (instruction_into I)
  unfolding instruction_into read_instruction
  Copies-instruction = record {
    at = λ h s v r.
        Runs-copy _ _ L.meta (Extends-refl h)
          (record { at = λ g same. (instruction-parts s v g (r.at g same)).0 })
          (λ meta _ e1 _ c1.
            Runs-copy _ _ (Copies-spec D I L) e1
              (record { at = λ g same. (instruction-parts s v g (r.at g same)).1 })
              (λ spec _ e2 f2 c2.
                Runs-copy _ _ Copies-status e2
                  (record { at = λ g same. (instruction-parts s v g (r.at g same)).2 })
                  (λ status _ e3 f3 c3. Runs-pure _ _ (record {
                    at = λ g same.
                        let (_, _, _, plain) = instruction-parts s v h (r.at h (λ a b c. refl)) in
                        ground (
                          arith,
                          (Holds-later h.next (Extends-trans f2 f3) le_refl c1).at g same,
                          (Holds-later h.next f3 le_refl c2).at g same,
                          c3.at g same,
                        );
                  }))));
  }

  items-parts :
      (c : Instruction T) (cs : List (Instruction T)) (v : InstructionValue D)
      (vs : List (InstructionValue D)) (g : Memory T)
      → read_items D (c ∷ cs) g ≡ some (v ∷ vs)
      → (read_instruction D c g ≡ some v) × (read_items D cs g ≡ some vs)
  unfolding read_items
  items-parts c cs v vs g e = ground arith

  items-nil :
      (c : Instruction T) (cs : List (Instruction T)) (g : Memory T)
      → read_items D (c ∷ cs) g ≢ some []
  unfolding read_items
  items-nil c cs g e = ground arith

  items-same :
      (c : Instruction T) (cs : List (Instruction T)) (v : InstructionValue D)
      (vs : List (InstructionValue D)) (g : Memory T)
      → read_instruction D c g ≡ some v
      → read_items D cs g ≡ some vs
      → read_items D (c ∷ cs) g ≡ some (v ∷ vs)
  unfolding read_items
  items-same c cs v vs g a b = ground arith

  nothing :
      (vs : List (InstructionValue D)) (g h : Memory T)
      → read_items D [] h ≡ some vs
      → read_items D [] g ≡ some vs
  unfolding read_items
  nothing vs g h e = e

  copied_items :
      (cs : List (Instruction T)) (vs : List (InstructionValue D)) (h : Memory T)
      → Holds (read_items D) 0 h cs vs
      → Runs h (items_into I cs) (λ cs' h'. Holds (read_items D) h.next h' cs' vs)
  unfolding items_into
  copied_items [] vs h r =
      Runs-pure _ [] (record { at = λ g same. nothing vs g h (r.at h (λ a b c. refl)) })
  copied_items (c ∷ cs) [] h r = absurd (items-nil c cs h (r.at h (λ a b c. refl)))
  copied_items (c ∷ cs) (v ∷ vs) h r =
      Runs-copy _ _ Copies-instruction (Extends-refl h)
        (record { at = λ g same. (items-parts c cs v vs g (r.at g same)).0 })
        (λ c' _ e1 _ c1.
          Runs-copy_here _ _ _ (λ l q. copied_items cs vs l q) e1
            (record { at = λ g same. (items-parts c cs v vs g (r.at g same)).1 })
            (λ cs' _ _ f2 c2. Runs-pure _ _ (record {
              at = λ g same.
                  items-same c' cs' v vs g ((Holds-later h.next f2 le_refl c1).at g same)
                    (c2.at g same);
            })))

  Copies-items : Copies (read_items D) (items_into I)
  Copies-items = record { at = λ h cs vs r. copied_items cs vs h r }

  list-parts :
      (s : InstructionList T) (v : ListValue D) (g : Memory T)
      → read_list D s g ≡ some v
      → (D.read_list_meta s.list_meta g ≡ some v.list_meta)
        × (read_through (item_arrays T) (read_items D) s.items g ≡ some v.items)
        × (s.type_meta ≡ v.type_meta)
  unfolding read_list
  list-parts s v g e = ground arith

  pub Copies-list : Copies (read_list D) (list_into I)
  unfolding list_into read_list
  Copies-list = record {
    at = λ h s v r.
        Runs-copy _ _ L.list_meta (Extends-refl h)
          (record { at = λ g same. (list-parts s v g (r.at g same)).0 })
          (λ meta _ e1 _ c1.
            Runs-copy _ _
              (Copies-through (item_arrays T) (item_arrays-IsKind T) (read_items D) _ Copies-items)
              e1 (record { at = λ g same. (list-parts s v g (r.at g same)).1 })
              (λ items _ _ f2 c2. Runs-pure _ _ (record {
                at = λ g same.
                    let (_, _, plain) = list-parts s v h (r.at h (λ a b c. refl)) in
                    ground (arith, (Holds-later h.next f2 le_refl c1).at g same, c2.at g same);
              })));
  }
