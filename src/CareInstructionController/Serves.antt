-- ===== src/CareInstructionController/Serves.antt =====
-- What reconcileManager achieves where it succeeds, and what the report relies on.
use shoot_grafter.Base.{true, false, ◌≡◌, refl, ap, sym, ◌∙◌, inl, inr, Option-cases, arith}
use shoot_grafter.Base.Dict.{MapRange}
use shoot_grafter.Kube.{ok}
use shoot_grafter.Kube.Exec.{◌>>=◌}
use shoot_grafter.Kube.Client.{Client}
use shoot_grafter.Kube.Conditions.{ConditionApi}
use shoot_grafter.Api.{CareInstruction, set_condition}
use shoot_grafter.ShootController.{Run, read, write}
use shoot_grafter.ShootController.Keeps.{Keeps-read, Keeps-write}
use shoot_grafter.ShootController.Ensures.{
  Ensures, Ensures-bind, Ensures-after, Ensures-tried, Ensures-read, Ensures-write, Ensures-raise,
  Ensures-pure,
}
use shoot_grafter.CareInstructionController.{State, GardenApi, garden_key}
use shoot_grafter.CareInstructionController.Manager.{
  is_current, recreate_manager, reconcile_manager,
}
use shoot_grafter.CareInstructionController.Shoots.{handle_annotation}
use shoot_grafter.CareInstructionController.Report.{
  reset, status_step, report, report_with, report_garden, report_reset,
}
use shoot_grafter.CareInstructionController.Known.{
  Serves, IsKnown, register-IsKnown, start-Serves, stopped-IsKnown,
}
use shoot_grafter.CareInstructionController.Sound.{IsSound}

module _ {W : Type 0} (C : ConditionApi) (G : GardenApi W) (R : MapRange)
    (greenhouse : Client W) where
  abbrev Known : CareInstruction → State G.RestConfig W → Type 0
  Known ci st = (garden_key st.instruction ≡ garden_key ci) × IsKnown (garden_key ci) st.fleet

  abbrev ServesAt : CareInstruction → State G.RestConfig W → Type 0
  ServesAt ci st = (garden_key st.instruction ≡ garden_key ci) × Serves (garden_key ci) st.fleet

  current-Serves :
      (ci : CareInstruction) (config : G.RestConfig) (st : State G.RestConfig W)
      → Known ci st
      → is_current C G greenhouse config st ≡ true
      → ServesAt ci st
  unfolding is_current
  current-Serves ci config st (same, k) e = elim (Option-cases k.garden.mgr) [
    | inl m ↦ ground (arith, k.is_there)
    | inr (n, m) ↦ elim (Option-cases k.garden.stop_chan) [
      | inl o ↦ ground (arith, k.is_there)
      | inr (o, p) ↦ elim (Option-cases k.garden.garden_client) [
        | inl q ↦ ground (arith, k.is_there, k.sound.client (garden_key ci) k.garden n k.is_there m)
        | inr (c, q) ↦ (
          same,
          record {
            garden = k.garden;
            is_there = k.is_there;
            has_manager = rw m refl;
            client = c;
            has_client = q;
            number = o;
            has_channel = p;
            is_open = ground (arith, k.is_there);
          },
        )
      ]
    ]
  ]

  recreate_manager-Serves :
      (ci : CareInstruction) (config : G.RestConfig) (scheme : G.Scheme)
      → Ensures
          (Known ci)
          (λ (_ : Unit {0}) st. ServesAt ci st)
          (recreate_manager C G greenhouse config scheme)
  unfolding recreate_manager set_condition
  recreate_manager-Serves ci config scheme =
      Ensures-bind (λ c st. (garden_key c ≡ garden_key ci) × Known ci st) _ _
        (Ensures-read _ (λ st c (same, k) e.
          let it : st.instruction ≡ c = ground arith in (ap garden_key (sym it) ∙ same, (same, k))))
        (λ c.
          Ensures-bind (λ _ st. (garden_key c ≡ garden_key ci) × Known ci st) _ _
            (Ensures-write _ (λ st u (eq, (same, k)) e.
              (eq, (same, rw eq (stopped-IsKnown (garden_key ci) st.fleet k)))))
            (λ _. Ensures-after _ _ (Keeps-read _) (λ client.
              Ensures-bind (λ _. ServesAt ci) _ _
                (Ensures-write _ (λ st u (eq, (same, k)) e.
                  (same, rw eq (start-Serves (garden_key ci) config client c.spec st.fleet k))))
                (λ _.
                  Ensures-after _ _ (Keeps-write _ (λ st h. h))
                    (λ _. Ensures-write _ (λ st u h e. h))))))

  reconcile_manager-ServesAt :
      (ci : CareInstruction)
      → Ensures
          (λ st. (st.instruction ≡ ci) × IsSound st.fleet)
          (λ (_ : Unit {0}). ServesAt ci)
          (reconcile_manager C G greenhouse)
  unfolding reconcile_manager set_condition
  reconcile_manager-ServesAt ci =
      Ensures-bind (λ c st. (c ≡ ci) × (st.instruction ≡ ci) × IsSound st.fleet) _ _
        (Ensures-read _ (λ st c (same, h) e. (ground arith, same, h)))
        (λ c. Ensures-after _ _ (Keeps-read _) (λ hash. Ensures-after _ _ (Keeps-read _) (λ known.
          Ensures-bind (λ _. Known ci) _ _
            (Ensures-write _ (λ st u (eq, same, h) e. (
              ap garden_key same,
              rw eq (register-IsKnown (garden_key ci) ci.spec hash st.fleet h),
            )))
            (λ _. Ensures-after _ _ (Keeps-write _ (λ st h. h)) (λ _.
              Ensures-tried _ _ (Keeps-read _)
                (λ e. Ensures-after _ _ (Keeps-write _ (λ st h. h)) (λ _. Ensures-raise e))
                (λ (config, scheme). Ensures-after _ _ (Keeps-write _ (λ st h. h)) (λ _.
                  Ensures-bind
                    (λ current st. Known ci st × (is_current C G greenhouse config st ≡ current)) _
                    _ (Ensures-read _ (λ st current k e. (k, ground arith)))
                    (elim [
                      | true ↦ Ensures-pure tt (λ st (k, e). current-Serves ci config st k e)
                      | false ↦ record {
                        at =
                            λ s u (k, e) e'. (recreate_manager-Serves ci config scheme).at s u k e';
                      }
                    ]))))))))

  -- If the gardens are sound and reconcileManager returns no error, then the garden of the
  -- CareInstruction has a manager, a channel that is open, and a client; and the report that
  -- follows finds this client: it follows no nil pointer, but resets the status, handles the
  -- annotation, and reports with the client.
  pub reconcile_manager-Serves :
      (s : Run (State G.RestConfig W))
      → IsSound s.world.fleet
      → (reconcile_manager C G greenhouse s).0 ≡ ok tt
      → (S : Serves
          (garden_key s.world.instruction)
          (reconcile_manager C G greenhouse s).1.world.fleet)
        × (report_reset C G R greenhouse (reconcile_manager C G greenhouse s).1
            ≡ (status_step C G R greenhouse reset >>= λ _.
                  handle_annotation C G R greenhouse >>= λ _. report C G R greenhouse S.client)
                (reconcile_manager C G greenhouse s).1)
  unfolding report_reset report_garden report_with ◌>>=◌ read write
  reconcile_manager-Serves s h e =
      let (same, S) = (reconcile_manager-ServesAt s.world.instruction).at s tt (refl, h) e in
      (S, rw same (rw S.is_there (rw S.has_client refl)))
