-- ===== src/Api/DeepCopy/Parts.antt =====
-- The copy of the specification is deep.
use mathlib.Core.Path.{fun_ext}
use shoot_grafter.Base.{String, some, [], ◌≡◌, refl, ap, ◌∙◌, arith, or_else, or_else-none}
use shoot_grafter.Base.Dict.{Dict, lookup, copy, lookup-copy, lookup-nil}
use shoot_grafter.Api.Memory.{Ptr, Imported, Memory, Selector, Spec}
use shoot_grafter.Api.DeepCopy.{
  Copiers, selector_into, spec_into, selectors, label_selectors, text_arrays, maps, copy_array,
  copy_entries,
}
use shoot_grafter.Api.DeepCopy.Rules.{
  Holds-later, Extends-trans, Extends-refl, le_refl, Runs-pure, Runs-bind, Copies, Copies-through,
  IsKind, read_through, Runs-copy,
}
use shoot_grafter.Api.DeepCopy.Reads.{
  Readers, AreDeep, read_array, read_entries, SelectorValue, SpecValue, read_selector, read_spec,
}

-- Every kind of cell is read as it was written.
module _ (T : Imported) where
  pub selectors-IsKind : IsKind (selectors T)
  selectors-IsKind = record { get-put = λ s. refl; get-none = refl }

  label_selectors-IsKind : IsKind (label_selectors T)
  label_selectors-IsKind = record { get-put = λ s. refl; get-none = refl }

  pub text_arrays-IsKind : IsKind (text_arrays T)
  text_arrays-IsKind = record { get-put = λ s. refl; get-none = refl }

  pub maps-IsKind : IsKind (maps T)
  maps-IsKind = record { get-put = λ s. refl; get-none = refl }

same_entries : (k : String) (m : Dict String) → lookup k (copy [] m) ≡ lookup k m
same_entries k m =
    lookup-copy k [] m ∙ ap (or_else (lookup k m)) (lookup-nil k) ∙ or_else-none (lookup k m)

module _ {T : Imported} where
  pub Copies-array : {A : Type 0} → Copies {T = T} (read_array {A = A}) copy_array
  Copies-array = record {
    at = λ h xs v r. Runs-pure _ xs (record { at = λ g same. r.at h (λ a b c. refl) });
  }

  Copies-entries : Copies {T = T} read_entries copy_entries
  Copies-entries = record {
    at = λ h m v r. Runs-pure _ (copy [] m) (record {
      at = λ g same. ap some (fun_ext (λ k. same_entries k m)) ∙ r.at h (λ a b c. refl);
    });
  }

module _ {T : Imported} (D : Readers T) (I : Copiers T) (L : AreDeep D I) where
  selector-parts :
      (s : Selector) (v : SelectorValue D) (g : Memory T)
      → read_selector D s g ≡ some v
      → (read_through (label_selectors T) D.read_label_selector s.label_selector g
          ≡ some v.label_selector)
        × (s.expression ≡ v.expression)
  unfolding read_selector
  selector-parts s v g e = ground arith

  spec-parts :
      (s : Spec) (v : SpecValue D) (g : Memory T)
      → read_spec D s g ≡ some v
      → (read_through (selectors T) (read_selector D) s.shoot_selector g ≡ some v.shoot_selector)
        × (read_through (text_arrays T) read_array s.propagate_labels g ≡ some v.propagate_labels)
        × (read_through (maps T) read_entries s.additional_labels g ≡ some v.additional_labels)
        × (read_through (maps T) read_entries s.additional_annotations g
            ≡ some v.additional_annotations)
  unfolding read_spec
  spec-parts s v g e = ground arith

  spec-same :
      (s : Spec) (v : SpecValue D) (g g' : Memory T) (selector propagated labels annotations : Ptr)
      → read_spec D s g ≡ some v
      → read_through (selectors T) (read_selector D) selector g' ≡ some v.shoot_selector
      → read_through (text_arrays T) read_array propagated g' ≡ some v.propagate_labels
      → read_through (maps T) read_entries labels g' ≡ some v.additional_labels
      → read_through (maps T) read_entries annotations g' ≡ some v.additional_annotations
      → read_spec D
          (record s {
            shoot_selector = selector;
            propagate_labels = propagated;
            additional_labels = labels;
            additional_annotations = annotations;
          })
          g'
        ≡ some v
  unfolding read_spec
  spec-same s v g g' selector propagated labels annotations e a b c d = ground arith

  pub Copies-selector : Copies (read_selector D) (selector_into I)
  unfolding selector_into read_selector
  Copies-selector = record {
    at = λ h s v r.
        Runs-bind _ _ _ _
          ((Copies-through (label_selectors T) (label_selectors-IsKind T) D.read_label_selector
              I.copy_label_selector L.label_selector).at
            h s.label_selector v.label_selector
            (record { at = λ g same. (selector-parts s v g (r.at g same)).0 }))
          (λ l k e c. Runs-pure _ _ (record {
            at = λ g same.
                let (_, f) = selector-parts s v h (r.at h (λ a b c. refl)) in
                ground (arith, c.at g same);
          }));
  }

  pub Copies-spec : Copies (read_spec D) (spec_into I)
  unfolding spec_into
  Copies-spec = record {
    at = λ h s v r.
        Runs-copy _ _
          (Copies-through (selectors T) (selectors-IsKind T) (read_selector D) _ Copies-selector)
          (Extends-refl h) (record { at = λ g same. (spec-parts s v g (r.at g same)).0 })
          (λ selector _ e1 _ c1.
            Runs-copy _ _
              (Copies-through (text_arrays T) (text_arrays-IsKind T) read_array _ Copies-array) e1
              (record { at = λ g same. (spec-parts s v g (r.at g same)).1 })
              (λ propagated _ e2 f2 c2.
                Runs-copy _ _
                  (Copies-through (maps T) (maps-IsKind T) read_entries _ Copies-entries) e2
                  (record { at = λ g same. (spec-parts s v g (r.at g same)).2 })
                  (λ labels _ e3 f3 c3.
                    Runs-copy _ _
                      (Copies-through (maps T) (maps-IsKind T) read_entries _ Copies-entries) e3
                      (record { at = λ g same. (spec-parts s v g (r.at g same)).3 })
                      (λ annotations _ e4 f4 c4. Runs-pure _ _ (record {
                        at = λ g same.
                            spec-same s v h g selector propagated labels annotations
                              (r.at h (λ a b c. refl))
                              ((Holds-later h.next (Extends-trans f2 (Extends-trans f3 f4)) le_refl
                                  c1).at
                                g same)
                              ((Holds-later h.next (Extends-trans f3 f4) le_refl c2).at g same)
                              ((Holds-later h.next f4 le_refl c3).at g same) (c4.at g same);
                      })))));
  }
