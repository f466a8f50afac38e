-- ===== src/ShootController/Ownership.antt =====
-- Whose Clusters Reconcile touches, and what a run may write at all.
use mathlib.Core.Logic.{if_pos, if_neg}
use shoot_grafter.Base.{
  String, true, Option, none, some, ◌≡◌, refl, ◌∙◌, inl, inr, Option-cases, Bool-cases, ◌==◌, ◌!=◌,
  text_dec, if◌then◌else◌,
}
use shoot_grafter.Base.Dict.{lookup, entries}
use shoot_grafter.Kube.{Error, Result, ok, err, Result-cases, is_not_found, ObjectKey, Cluster}
use shoot_grafter.Kube.Exec.{Exec, pure, raise, attempt, continue, ◌>>=◌}
use shoot_grafter.Api.{care_instruction_label}
use shoot_grafter.ShootController.{ShootController, Externals, Run, CtrlResult, done, read}
use shoot_grafter.ShootController.Keeps.{Keeps-pure, Keeps-bind, Keeps-emit_event, after_write}
use shoot_grafter.ShootController.Reconcile.{
  Existing, foreign, absent, found, existing_cluster, handle_deleted_shoot, with_existing,
  reconcile,
}
use shoot_grafter.ShootController.Writes.{IsKept}
use shoot_grafter.ShootController.Writes.Steps.{
  Keeps-with_existing, Keeps-was_deleted, Keeps-ignore_not_found,
}

module _ {W : Type 0} (X : Externals W) (r : ShootController W) where
  -- The Cluster that bears the name of the request.
  abbrev pub cluster_of : ObjectKey → W → Result Cluster
  cluster_of req =
      r.greenhouse_client.get_cluster
        (record { namespace = r.care_instruction.namespace; name = req.name })

  -- How a Cluster with this owner label is classified.
  abbrev pub by_owner : Cluster → Option String → Result Existing
  by_owner c none = ok (found c none)
  by_owner c (some owner) =
      if owner != r.care_instruction.name then ok foreign else ok (found c (some owner))

  -- How the answer for a Cluster is classified.
  abbrev pub classify : Result Cluster → Result Existing
  classify (err e) = if is_not_found e then ok absent else err e
  classify (ok c) = by_owner c (lookup care_instruction_label (entries c.labels))

  existing_cluster_lem :
      (req : ObjectKey) (s : Run W)
      → existing_cluster X r req s ≡ (classify (cluster_of req s.world), s)
  unfolding existing_cluster ◌>>=◌ pure raise attempt read
  existing_cluster_lem req s = elim (Result-cases (cluster_of req s.world)) [
    | inl (c, e) ↦ elim (Option-cases (lookup care_instruction_label (entries c.labels))) [
      | inl l ↦ rw (e, l) refl
      | inr (owner, l) ↦ elim (text_dec owner r.care_instruction.name) [
        | yes y ↦ rw (e, l, if_pos _ y) refl
        | no n ↦ rw (e, l, if_neg _ n) refl
      ]
    ]
    | inr (f, e) ↦ elim (Bool-cases (is_not_found f)) [
      | inl b ↦ rw (e, b) refl
      | inr b ↦ rw (e, b) refl
    ]
  ]

  -- What is left to do, once it is known whose the Cluster is.
  abbrev after_existing : ObjectKey → Existing → Exec (Run W) CtrlResult
  after_existing req foreign = pure done
  after_existing req absent = with_existing X r req absent
  after_existing req (found c owner) = with_existing X r req (found c owner)

  pub reconcile_as :
      (req : ObjectKey) (s : Run W)
      → reconcile X r req s ≡ continue (classify (cluster_of req s.world)) (after_existing req) s
  unfolding reconcile ◌>>=◌
  reconcile_as req s = rw (existing_cluster_lem req s) refl

  module _ (P : W → Type 0) (K : IsKept X r P) (req : ObjectKey) (s : Run W) (h : P s.world) where
    Keeps-by_owner :
        (c : Cluster) (o : Option String)
        → lookup care_instruction_label (entries c.labels) ≡ o
        → P (continue (by_owner c o) (after_existing req) s).1.world
    Keeps-by_owner c none l = (Keeps-with_existing X r P K req (found c none) l).at s h
    Keeps-by_owner c (some owner) l = elim (text_dec owner r.care_instruction.name) [
      | yes y ↦ rw (if_pos _ y) ((Keeps-with_existing X r P K req (found c (some owner)) l).at s h)
      | no n ↦ rw (if_neg _ n) ((Keeps-pure {P = P} done).at s h)
    ]

    Keeps-classify :
        (got : Result Cluster) → P (continue (classify got) (after_existing req) s).1.world
    Keeps-classify (err e) = elim (Bool-cases (is_not_found e)) [
      | inl b ↦ rw b ((Keeps-with_existing X r P K req absent tt).at s h)
      | inr b ↦ rw b h
    ]
    Keeps-classify (ok c) = Keeps-by_owner c (lookup care_instruction_label (entries c.labels)) refl

  -- Whatever the clusters answer, a run of Reconcile keeps every fact about them that is kept by
  -- each single write that it is allowed: to delete a Cluster labelled with the name of this
  -- CareInstruction, to create or update the Secret of a Shoot, to label the Greenhouse ConfigMap
  -- where it has no label, to write the garden's ConfigMap with a content that is not empty, to
  -- label, annotate or refer a Shoot to that ConfigMap, to ask for an admin kubeconfig, to delete a
  -- role binding that has another role, and to write the role binding.
  pub reconcile_keeps :
      (P : W → Type 0)
      → IsKept X r P
      → (req : ObjectKey) (s : Run W) → P s.world
      → P (reconcile X r req s).1.world
  reconcile_keeps P K req s h =
      rw (reconcile_as req s) (Keeps-classify P K req s h (cluster_of req s.world))

  -- What the end of a Shoot makes of the clusters, given its Cluster and that Cluster's owner
  -- label.
  abbrev pub removal : Option String → Cluster → W → W
  removal none c w = w
  removal (some owner) c w =
      if owner == r.care_instruction.name then (r.greenhouse_client.delete_cluster c w).1 else w

  -- The same, given the answer for the Cluster that bears its name.
  abbrev pub after_removal : Result Cluster → W → W
  after_removal (err e) w = w
  after_removal (ok c) w = removal (lookup care_instruction_label (entries c.labels)) c w

  deleted-world :
      (req : ObjectKey) (c : Cluster) (owner : Option String) (s : Run W)
      → (handle_deleted_shoot X r req (found c owner) s).1.world ≡ removal owner c s.world
  unfolding handle_deleted_shoot
  deleted-world req c none s = (Keeps-was_deleted r (λ w. w ≡ s.world) req).at s refl
  deleted-world req c (some owner) s = elim (text_dec owner r.care_instruction.name) [
    | yes y ↦ rw (if_pos _ y) (
        after_write {P = λ w. w ≡ (r.greenhouse_client.delete_cluster c s.world).1}
          (r.greenhouse_client.delete_cluster c) _ s
          (λ f. Keeps-bind _ _ (Keeps-emit_event r _ _ _) (λ _. Keeps-ignore_not_found r _ f))
          (λ _. Keeps-bind _ _ (Keeps-emit_event r _ _ _) (λ _. Keeps-was_deleted r _ req)) refl)
    | no n ↦ rw (if_neg _ n) ((Keeps-was_deleted r (λ w. w ≡ s.world) req).at s refl)
  ]

  module _ (req : ObjectKey) (s : Run W) (e : Error)
      (gone : r.garden_client.get_shoot req s.world ≡ err e) (nf : is_not_found e ≡ true) where
    with_existing-gone :
        (existing : Existing)
        → with_existing X r req existing s ≡ handle_deleted_shoot X r req existing s
    unfolding with_existing ◌>>=◌ read attempt
    with_existing-gone existing = rw (gone, nf) refl

    removed-owner :
        (c : Cluster) (o : Option String)
        → (continue (by_owner c o) (after_existing req) s).1.world ≡ removal o c s.world
    unfolding pure
    removed-owner c none = rw (with_existing-gone (found c none)) (deleted-world req c none s)
    removed-owner c (some owner) = elim (text_dec owner r.care_instruction.name) [
      | yes y ↦
          rw (if_pos _ y, if_pos _ y, with_existing-gone (found c (some owner)))
            (deleted-world req c (some owner) s ∙ rw (if_pos _ y) refl)
      | no n ↦ rw (if_neg _ n, if_neg _ n) refl
    ]

    removed-classify :
        (got : Result Cluster)
        → (continue (classify got) (after_existing req) s).1.world ≡ after_removal got s.world
    unfolding handle_deleted_shoot
    removed-classify (err f) = elim (Bool-cases (is_not_found f)) [
      | inl b ↦
          rw (b, with_existing-gone absent) ((Keeps-was_deleted r (λ w. w ≡ s.world) req).at s refl)
      | inr b ↦ rw b refl
    ]
    removed-classify (ok c) = removed-owner c (lookup care_instruction_label (entries c.labels))

  -- If the Shoot of the request is not found, the one thing that Reconcile does to the clusters is
  -- to delete the Cluster that bears its name, and this only if that Cluster is labelled with the
  -- name of this CareInstruction: one without the label, of another CareInstruction, or that cannot
  -- be read stays.
  pub reconcile_removed :
      (req : ObjectKey) (s : Run W) (e : Error)
      → r.garden_client.get_shoot req s.world ≡ err e
      → is_not_found e ≡ true
      → (reconcile X r req s).1.world ≡ after_removal (cluster_of req s.world) s.world
  reconcile_removed req s e gone nf =
      rw (reconcile_as req s) (removed-classify req s e gone nf (cluster_of req s.world))
