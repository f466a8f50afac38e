-- ===== src/Webhook/Selection.antt =====
-- The default selects the same Shoots.
use shoot_grafter.Base.{
  Bool, Option, none, some, ◌≡◌, refl, String, Option-cases, inl, inr, is_some, true, arith,
}
use shoot_grafter.Kube.{LabelSelector, Shoot, Result, ok}
use shoot_grafter.Kube.Client.{Client}
use shoot_grafter.Api.{CareInstruction, ShootSelector, matches_cel_filter}
use shoot_grafter.Api.Lists.{list_selected_shoots, label_selector_of}
use shoot_grafter.Webhook.{default_instruction, with_selector, selector_or_empty}

-- The part of a CareInstruction that the selection reads.
label_selector-or_empty :
    (s : Option ShootSelector)
    → label_selector_of (some (selector_or_empty s)) ≡ label_selector_of s
label_selector-or_empty none = refl
label_selector-or_empty (some s) = refl

-- The webhook accepts every CareInstruction that is there, and the one that it returns has a
-- selector. It selects the same Shoots as before: ListShoots gives the same answer for every
-- client, and MatchesCELFilter the same answer for every Shoot. A second run changes nothing.
pub default_instruction_lem :
    {W : Type 0} (as_selector : LabelSelector → Result LabelSelector)
    (evaluate : String → Shoot → Result Bool) (ci : CareInstruction)
    → (d : CareInstruction) × (default_instruction (some ci) ≡ ok d)
      × (is_some d.spec.shoot_selector ≡ true)
      × ((garden : Client W) (w : W)
          → list_selected_shoots as_selector d garden w
            ≡ list_selected_shoots as_selector ci garden w)
      × ((s : Shoot) → matches_cel_filter evaluate d s ≡ matches_cel_filter evaluate ci s)
      × (default_instruction (some d) ≡ ok d)
unfolding default_instruction list_selected_shoots matches_cel_filter
default_instruction_lem as_selector evaluate ci = (
  with_selector ci,
  refl,
  refl,
  λ garden w. elim (Option-cases ci.spec.shoot_selector) [
    | inl e ↦ rw e refl
    | inr (s, e) ↦ rw e refl
  ],
  λ s. elim (Option-cases ci.spec.shoot_selector) [
    | inl e ↦ rw e (ground arith)
    | inr (t, e) ↦ rw e refl
  ],
  refl,
)
