-- ===== src/CareInstructionController/Again.antt =====
-- A run of reconcileManager that succeeds leaves a manager that is current.
use shoot_grafter.Base.{Bool, true, false, ◌||◌, ◌≡◌, refl, ap, sym, subst, if◌then◌else◌, arith}
use shoot_grafter.Kube.{ok, err, Condition}
use shoot_grafter.Kube.Exec.{pure, ◌>>=◌}
use shoot_grafter.Kube.Client.{Client}
use shoot_grafter.Kube.Conditions.{ConditionApi, IsLawful}
use shoot_grafter.Api.{CareInstruction, set_condition, shoot_controller_started_condition}
use shoot_grafter.ShootController.{read}
use shoot_grafter.ShootController.Keeps.{Keeps-read, Keeps-write}
use shoot_grafter.ShootController.Ensures.{
  Ensures, Ensures-bind, Ensures-after, Ensures-read, Ensures-write, Ensures-raise, Ensures-pure,
  Ensures-attempt-read,
}
use shoot_grafter.CareInstructionController.{State, GardenApi, garden_key}
use shoot_grafter.CareInstructionController.Gardens.{start}
use shoot_grafter.CareInstructionController.Access.{get_garden_cluster_access}
use shoot_grafter.CareInstructionController.Manager.{
  is_current, recreate_manager, reconcile_manager,
}
use shoot_grafter.CareInstructionController.Sound.{IsSound}
use shoot_grafter.CareInstructionController.Known.{register-IsKnown, stopped-IsKnown}
use shoot_grafter.CareInstructionController.Steady.{
  IsReflexive, IsSettled, SameUpToStatus, Starting, set_condition-SameUpToStatus, key-same,
  started-IsSettled,
}

module _ {W : Type 0} (C : ConditionApi) (L : IsLawful C) (G : GardenApi W) (D : IsReflexive G)
    (greenhouse : Client W) (ci : CareInstruction) (w : W) where
  abbrev Settled : State G.RestConfig W → Type 0
  Settled = IsSettled C L G D greenhouse ci w

  abbrev Start : State G.RestConfig W → Type 0
  Start = Starting C L G D greenhouse ci w

  abbrev Same : CareInstruction → Type 0
  Same = SameUpToStatus C L G D greenhouse ci

  abbrev Accessed : G.RestConfig → G.Scheme → Type 0
  Accessed config scheme = get_garden_cluster_access C G greenhouse ci w ≡ ok (config, scheme)

  Start-set :
      (condition : Condition) (st : State G.RestConfig W)
      → Start st
      → Start (record st { instruction = set_condition C st.instruction condition })
  Start-set condition st (same, k, known) =
      (set_condition-SameUpToStatus C L G D greenhouse ci st.instruction condition same, k, known)

  -- The state is that of `st'` after the start of a manager.
  abbrev IsStarted : G.RestConfig → Client W → Bool → State G.RestConfig W → Type 0
  IsStarted config client shares st =
      (before : State G.RestConfig W) × Start before
      × (st ≡ record before {
        fleet = start (garden_key ci) config client ci.spec before.fleet;
        shares_spec = shares || before.shares_spec;
      })

  abbrev sharing : State G.RestConfig W → State G.RestConfig W
  sharing st = record st { shares_spec = true }

  abbrev starting :
      G.RestConfig → Client W → State G.RestConfig W → CareInstruction → State G.RestConfig W
  starting config client st c = record st {
    fleet = start (garden_key ci) config client c.spec st.fleet;
  }

  recreate_manager-Settled :
      (config : G.RestConfig) (scheme : G.Scheme)
      → Accessed config scheme
      → Ensures Start (λ (_ : Unit {0}). Settled) (recreate_manager C G greenhouse config scheme)
  unfolding recreate_manager
  recreate_manager-Settled config scheme access =
      Ensures-bind (λ c st. Same c × Start st) _ _
        (Ensures-read _ (λ st c (same, k, known) e.
          let it : st.instruction ≡ c = ground arith in (subst Same it same, (same, k, known))))
        (λ c.
          Ensures-bind (λ _ st. Same c × Start st) _ _
            (Ensures-write _ (λ st u (sc, (same, k, known)) e. (
              sc,
              (
                same,
                k,
                rw (key-same C L G D greenhouse ci c sc)
                    (stopped-IsKnown (garden_key ci) st.fleet known),
              ),
            )))
            (λ _. Ensures-after _ _ (Keeps-read _) (λ client.
              Ensures-bind (λ _. IsStarted config client false) _ _
                (Ensures-write _ (λ st u (sc, (same, k, known)) e. (
                  st,
                  (same, k, known),
                  rw (key-same C L G D greenhouse ci c sc) (ap (starting config client st) sc),
                )))
                (λ _.
                  Ensures-bind (λ _. IsStarted config client true) _ _
                    (Ensures-write _ (λ st u (before, b, e) _. (before, b, ap sharing e)))
                    (λ _. Ensures-write _ (λ st u (before, b, e) _.
                      subst
                        (λ x. Settled (record x {
                          instruction =
                              set_condition C x.instruction
                                (C.true_condition shoot_controller_started_condition "Started" "");
                        }))
                        (sym e)
                        (started-IsSettled C L G D greenhouse ci w config scheme client before
                          access b)))))))

  abbrev Begin : State G.RestConfig W → Type 0
  Begin st = (st.instruction ≡ ci) × (st.clusters ≡ w) × IsSound st.fleet

  current-Settled :
      (config : G.RestConfig) (scheme : G.Scheme) (st : State G.RestConfig W)
      → Accessed config scheme
      → Start st
      → is_current C G greenhouse config st ≡ true
      → Settled st
  current-Settled config scheme st access (same, k, known) e = record {
    same = same;
    clusters = k;
    config = config;
    scheme = scheme;
    access = access;
    garden = known.garden;
    is_there = known.is_there;
    current = e;
  }

  -- What follows once the garden can be reached.
  Accessed-Settled :
      (config : G.RestConfig) (scheme : G.Scheme)
      → Accessed config scheme
      → Ensures Start
          (λ (_ : Unit {0}). Settled)
          (read (λ st. ok (is_current C G greenhouse config st)) >>= λ current.
            if current then pure tt else recreate_manager C G greenhouse config scheme)
  Accessed-Settled config scheme access =
      Ensures-bind (λ current st. Start st × (is_current C G greenhouse config st ≡ current)) _ _
        (Ensures-read _ (λ st current b e. (b, ground arith)))
        (elim [
          | true ↦ Ensures-pure tt (λ st (b, e). current-Settled config scheme st access b e)
          | false ↦ record {
            at = λ s u (b, e) e'. (recreate_manager-Settled config scheme access).at s u b e';
          }
        ])

  pub reconcile_manager-Settled :
      Ensures Begin (λ (_ : Unit {0}). Settled) (reconcile_manager C G greenhouse)
  unfolding reconcile_manager
  reconcile_manager-Settled =
      Ensures-bind (λ c st. (c ≡ ci) × Begin st) _ _
        (Ensures-read _ (λ st c (i, k, h) e. (ground arith, (i, k, h))))
        (λ c. Ensures-after _ _ (Keeps-read _) (λ hash. Ensures-after _ _ (Keeps-read _) (λ known.
          Ensures-bind (λ _ st. (c ≡ ci) × Start st) _ _
            (Ensures-write _ (λ st _ (eq, (i, k, h)) e. (
              eq,
              (rw i refl, k, rw eq (register-IsKnown (garden_key ci) ci.spec hash st.fleet h)),
            )))
            (λ _. Ensures-after _ _ (Keeps-write _ (λ st h. h)) (λ _.
              Ensures-bind
                (λ access st. Start st × (get_garden_cluster_access C G greenhouse ci w ≡ access)) _
                _
                (Ensures-attempt-read _ (λ st (eq, (same, k, h)). ((same, k, h), rw (eq, k) refl)))
                (elim [
                  | err e ↦
                      Ensures-after _ _ (Keeps-write _ (λ st (b, e). (Start-set _ st b, e)))
                        (λ _. Ensures-raise e)
                  | ok (config, scheme) ↦
                      Ensures-after _ _ (Keeps-write _ (λ st (b, e). (Start-set _ st b, e))) (λ _.
                        record {
                          at = λ s u (b, e) e'. (Accessed-Settled config scheme e).at s u b e';
                        })
                ]))))))
