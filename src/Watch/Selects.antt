-- ===== src/Watch/Selects.antt =====
-- Which events of Shoots lead to a run, with all predicates of the watch together.
use shoot_grafter.Base.{
  Bool, true, false, ◌&&◌, Option, none, some, List, [], ◌∷◌, ◌≡◌, refl, arith, if◌then◌else◌, ◌!=◌,
  Option-cases, Bool-cases, inl, inr, text_dec, ap, sym, subst, ◌∙◌,
}
use mathlib.Core.Logic.{if_pos, if_neg}
use shoot_grafter.Kube.{Error, Result, ok, err, Shoot, LabelSelector, Result-cases}
use shoot_grafter.Kube.Exec.{pure, ◌>>=◌}
use shoot_grafter.Api.{ShootSelector, matches_cel_filter}
use shoot_grafter.Api.Lists.{label_selector_of}
use shoot_grafter.ShootController.{ShootController, Externals, Run, emit_event}
use shoot_grafter.Watch.{Semantic, passes_status_noise, matches_cel}
use shoot_grafter.Watch.SetUp.{
  ShootEvent, shoot_created, shoot_updated, shoot_deleted, shoot_generic, Predicate, expression_of,
  noise_predicate, new_cel_predicate, shoot_predicates,
}

-- The watch passes an event if each predicate does, in their order.
abbrev pub passes_all : {W : Type 0} → List (Predicate W) → Predicate W
passes_all [] event = pure true
passes_all (p ∷ ps) event = p event >>= λ b. if b then passes_all ps event else pure false

abbrev pub is_match : Result Bool → Bool
is_match (ok b) = b
is_match (err e) = false

ok_inj {ℓ} : {A : Type ℓ} (a b : A) → ok a ≡ ok b → a ≡ b
ok_inj a b e = ground arith

and_true : (b : Bool) → (b && true) ≡ b
and_true true = refl
and_true false = refl

module _ {W : Type 0} (E : Semantic) (X : Externals W)
    (label_predicate : LabelSelector → Result (ShootEvent → Bool)) (r : ShootController W) where
  abbrev pub is_noise_free : ShootEvent → Bool
  is_noise_free (shoot_updated old new) = passes_status_noise E old new
  is_noise_free _ = true

  abbrev selected_by : Result (ShootEvent → Bool) → ShootEvent → Bool
  selected_by (ok p) event = p event
  selected_by (err e) event = false

  abbrev pub is_labelled : Option LabelSelector → ShootEvent → Bool
  is_labelled none event = true
  is_labelled (some s) event = selected_by (label_predicate s) event

  -- A Shoot that is deleted counts as a match, and of an update the new Shoot counts.
  abbrev pub is_matched : ShootEvent → Bool
  is_matched (shoot_created s) = is_match (matches_cel_filter X.evaluate_cel r.care_instruction s)
  is_matched (shoot_updated old new) =
      is_match (matches_cel_filter X.evaluate_cel r.care_instruction new)
  is_matched (shoot_deleted s) = true
  is_matched (shoot_generic s) = is_match (matches_cel_filter X.evaluate_cel r.care_instruction s)

  -- A predicate that answers like this, and leaves the clusters alone.
  abbrev Answers : Predicate W → (ShootEvent → Bool) → Type 0
  Answers p answer =
      (event : ShootEvent) (s : Run W)
      → ((p event s).0 ≡ ok (answer event)) × ((p event s).1.world ≡ s.world)

  matches_cel-answers :
      (shoot : Shoot) (s : Run W)
      → ((matches_cel X r shoot s).0
          ≡ ok (is_match (matches_cel_filter X.evaluate_cel r.care_instruction shoot)))
        × ((matches_cel X r shoot s).1.world ≡ s.world)
  unfolding matches_cel ◌>>=◌ pure emit_event
  matches_cel-answers shoot s =
      elim (Result-cases (matches_cel_filter X.evaluate_cel r.care_instruction shoot)) [
        | inl (b, e) ↦ rw (matches_cel, e) (refl, refl)
        | inr (x, e) ↦ elim (Bool-cases r.has_event_recorder) [
          | inl h ↦ rw (matches_cel, e) (rw h (refl, refl))
          | inr h ↦ rw (matches_cel, e) (rw h (refl, refl))
        ]
      ]

  cel-Answers : Answers (new_cel_predicate E X label_predicate r) is_matched
  unfolding new_cel_predicate pure
  cel-Answers (shoot_created shoot) s = matches_cel-answers shoot s
  cel-Answers (shoot_updated old new) s = matches_cel-answers new s
  cel-Answers (shoot_deleted shoot) s = (refl, refl)
  cel-Answers (shoot_generic shoot) s = matches_cel-answers shoot s

  noise-Answers : Answers (noise_predicate E X label_predicate r) is_noise_free
  unfolding noise_predicate pure
  noise-Answers (shoot_created shoot) s = (refl, refl)
  noise-Answers (shoot_updated old new) s = (refl, refl)
  noise-Answers (shoot_deleted shoot) s = (refl, refl)
  noise-Answers (shoot_generic shoot) s = (refl, refl)

  -- One more predicate is one more test.
  Answers-cons :
      (p : Predicate W) (ps : List (Predicate W)) (a b : ShootEvent → Bool)
      → Answers p a
      → Answers (passes_all ps) b
      → Answers (passes_all (p ∷ ps)) (λ event. a event && b event)
  unfolding ◌>>=◌ pure
  Answers-cons p ps a b first rest event s =
      let (e, w) = first event s in
      let (f, v) = rest event (p event s).1 in
      elim (Bool-cases (a event)) [ inl t ↦ rw e (rw t (f, v ∙ w)) | inr n ↦ rw e (rw n (refl, w)) ]

  Answers-nil : Answers (passes_all []) (λ event. true)
  unfolding pure
  Answers-nil event s = (refl, refl)

  abbrev selector : Option ShootSelector
  selector = r.care_instruction.spec.shoot_selector

  abbrev cel_list : List (Predicate W)
  cel_list =
      if expression_of selector != "" then new_cel_predicate E X label_predicate r ∷ [] else []

  unfiltered :
      expression_of selector ≡ ""
      → (shoot : Shoot)
      → is_match (matches_cel_filter X.evaluate_cel r.care_instruction shoot) ≡ true
  unfolding matches_cel_filter
  unfiltered e shoot = elim (Option-cases selector) [
    | inl n ↦ rw (matches_cel_filter, n) refl
    | inr (sel, f) ↦
        let empty : sel.expression ≡ "" = ap expression_of (sym f) ∙ e in
        rw (matches_cel_filter, f) (rw (if_pos _ empty) refl)
  ]

  -- Without an expression, each Shoot matches.
  no_expression : expression_of selector ≡ "" → (event : ShootEvent) → is_matched event ≡ true
  no_expression e (shoot_created shoot) = unfiltered e shoot
  no_expression e (shoot_updated old new) = unfiltered e new
  no_expression e (shoot_deleted shoot) = refl
  no_expression e (shoot_generic shoot) = unfiltered e shoot

  cel_list-Answers : Answers (passes_all cel_list) is_matched
  cel_list-Answers event s = elim (text_dec (expression_of selector) "") [
    | yes e ↦ rw (if_pos _ e) (rw (no_expression e event) (Answers-nil event s))
    | no n ↦ rw (if_neg _ n) (
        let (f, w) =
          Answers-cons (new_cel_predicate E X label_predicate r) [] is_matched (λ _. true)
            cel-Answers Answers-nil event s in
        (f ∙ ap ok (and_true (is_matched event)), w))
  ]

  abbrev labels : Option LabelSelector
  labels = label_selector_of selector

  fails :
      (l : LabelSelector) (x : Error)
      → labels ≡ some l
      → label_predicate l ≡ err x
      → shoot_predicates E X label_predicate r ≡ err x
  unfolding shoot_predicates
  fails l x n q = rw (shoot_predicates, n, q) refl

  -- All predicates that are set up, in their order.
  listed-Answers :
      (ps : List (Predicate W))
      → shoot_predicates E X label_predicate r ≡ ok ps
      → Answers
          (passes_all ps)
          (λ event. is_noise_free event && (is_labelled labels event && is_matched event))
  unfolding shoot_predicates pure
  listed-Answers ps e event s = elim (Option-cases labels) [
    | inl n ↦
        let same : noise_predicate E X label_predicate r ∷ cel_list ≡ ps =
          ok_inj _ _ (sym (rw (shoot_predicates, n) refl) ∙ e) in
        rw n (
          subst (λ x. Answers (passes_all x) (λ event. is_noise_free event && is_matched event))
            same (Answers-cons _ cel_list is_noise_free is_matched noise-Answers cel_list-Answers)
            event s)
    | inr (l, n) ↦ elim (Result-cases (label_predicate l)) [
      | inl (p, q) ↦
          let same : noise_predicate E X label_predicate r ∷ (λ event. pure (p event)) ∷ cel_list
              ≡ ps =
            ok_inj _ _ (sym (rw (shoot_predicates, n, q) refl) ∙ e) in
          rw n (
            rw q (
              subst
                (λ x.
                  Answers (passes_all x)
                    (λ event. is_noise_free event && (p event && is_matched event)))
                same
                (Answers-cons _ ((λ event. pure (p event)) ∷ cel_list) is_noise_free
                  (λ event. p event && is_matched event) noise-Answers
                  (Answers-cons (λ event. pure (p event)) cel_list p is_matched
                    (λ event s. (refl, refl)) cel_list-Answers))
                event s))
      | inr (x, q) ↦ ground (arith, fails l x n q)
    ]
  ]

  -- If SetupWithManager builds the predicates of the watch of Shoots, then they pass an event
  -- exactly if it is no status noise, its Shoot has the labels that are selected, and it is a
  -- deletion or its (new) Shoot matches the CEL filter, an error of which counts as no match. To
  -- test an event changes nothing in the clusters.
  pub shoot_predicates_lem :
      (ps : List (Predicate W)) (event : ShootEvent) (s : Run W)
      → shoot_predicates E X label_predicate r ≡ ok ps
      → ((passes_all ps event s).0
          ≡ ok (
              is_noise_free event
              && (is_labelled (label_selector_of r.care_instruction.spec.shoot_selector) event
                  && is_matched event)))
        × ((passes_all ps event s).1.world ≡ s.world)
  shoot_predicates_lem ps event s e = listed-Answers ps e event s
