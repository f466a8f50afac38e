-- ===== src/CareInstructionController/Seeded.antt =====
-- A new garden knows the auth ConfigMap from the start.
use shoot_grafter.Base.{
  String, Bool, true, none, some, ◌≡◌, refl, sym, ◌∙◌, ap, arith, inl, inr, Option-cases, ◌!=◌,
}
use shoot_grafter.Base.Dict.{lookup, lookup-insert, MapRange}
use shoot_grafter.Kube.{ok, ConfigMap, Condition}
use shoot_grafter.Kube.Client.{Client}
use shoot_grafter.Kube.Conditions.{ConditionApi}
use shoot_grafter.Api.{CareInstructionSpec, set_condition}
use shoot_grafter.ShootController.{Run}
use shoot_grafter.ShootController.Keeps.{
  Keeps, Keeps-look, Keeps-read, Keeps-write, Keeps-bind, Keeps-tried, Keeps-pure, Keeps-raise,
  Keeps-if,
}
use shoot_grafter.ShootController.Ensures.{
  Ensures, Ensures-bind, Ensures-after, Ensures-read, Ensures-write, Ensures-kept,
}
use shoot_grafter.CareInstructionController.{Garden, Fleet, State, GardenApi, garden_key}
use shoot_grafter.CareInstructionController.Gardens.{
  new_garden, register, stop_existing, started, start,
}
use shoot_grafter.CareInstructionController.Manager.{
  hash_auth_config_map, initial_hash, recreate_manager, reconcile_manager,
}
use shoot_grafter.CareInstructionController.Shoots.{handle_auth_change}
use shoot_grafter.CareInstructionController.Renewal.{HasAuth, same_hash}

-- The garden under the key has this hash.
record Knows {Config C : Type 0} (key hash : String) (f : Fleet Config C) : Type 0 where
  pub garden : Garden Config C
  pub is_there : lookup key f.gardens ≡ some garden
  pub is_its : garden.auth_config_map_hash ≡ hash

module _ {Config C : Type 0} (key hash : String) (f : Fleet Config C) where
  register-Knows :
      (spec : CareInstructionSpec)
      → lookup key f.gardens ≡ none
      → Knows key hash (register key spec hash f)
  unfolding register
  register-Knows spec e =
      let new : Garden Config C = new_garden spec hash in
      rw (register, e)
        (record {
          garden = new;
          is_there = ground (arith, lookup-insert key key new f.gardens);
          is_its = refl;
        })

  stop_existing-Knows : Knows key hash f → Knows key hash (stop_existing key f)
  unfolding stop_existing
  stop_existing-Knows k = elim (Option-cases k.garden.mgr) [
    | inl o ↦ rw (stop_existing, k.is_there, o) k
    | inr (m, o) ↦ elim (Option-cases k.garden.cancel_func) [
      | inl c ↦ rw (stop_existing, k.is_there, o, c) k
      | inr (n, c) ↦
          rw (stop_existing, k.is_there, o, c)
            (record { garden = k.garden; is_there = k.is_there; is_its = k.is_its })
    ]
  ]

  start-Knows :
      (config : Config) (client : C) (spec : CareInstructionSpec)
      → Knows key hash f
      → Knows key hash (start key config client spec f)
  unfolding start
  start-Knows config client spec k =
      let new : Garden Config C = started config client spec f.next k.garden in
      rw (start, k.is_there)
        (record {
          garden = new;
          is_there = ground (arith, lookup-insert key key new f.gardens);
          is_its = k.is_its;
        })

module _ {W : Type 0} (C : ConditionApi) (G : GardenApi W) (R : MapRange) (greenhouse : Client W)
    (key : String) (cm : ConfigMap) where
  abbrev hash : String
  hash = hash_auth_config_map C G greenhouse cm

  abbrev Before : State G.RestConfig W → Type 0
  Before st =
      HasAuth C G R greenhouse st cm
      × (garden_key st.instruction ≡ key)
      × (lookup key st.fleet.gardens ≡ none)

  abbrev Seeded : State G.RestConfig W → Type 0
  Seeded st =
      HasAuth C G R greenhouse st cm × (garden_key st.instruction ≡ key) × Knows key hash st.fleet

  initial_hash-HasAuth :
      (st : State G.RestConfig W) → Before st → initial_hash C G greenhouse st ≡ ok hash
  unfolding initial_hash
  initial_hash-HasAuth st (h, k, e) =
      let named : (st.instruction.spec.authentication_config_map_name != "") ≡ true =
        ground (arith, h.is_named) in
      rw (initial_hash, k, e) (rw (named, h.answer) refl)

  condition-Seeded :
      (condition : Condition) (st : State G.RestConfig W)
      → Seeded st
      → Seeded (record st { instruction = set_condition C st.instruction condition })
  unfolding set_condition
  condition-Seeded condition st (h, k, s) =
      (record { is_named = h.is_named; answer = h.answer }, k, s)

  same_auth :
      (st : State G.RestConfig W) (f : Fleet G.RestConfig (Client W)) (b : Bool)
      → HasAuth C G R greenhouse st cm
      → HasAuth C G R greenhouse (record st { fleet = f; shares_spec = b }) cm
  same_auth st f b h = record { is_named = h.is_named; answer = h.answer }

  Keeps-recreate_manager :
      (config : G.RestConfig) (scheme : G.Scheme)
      → Keeps Seeded (recreate_manager C G greenhouse config scheme)
  unfolding recreate_manager
  Keeps-recreate_manager config scheme = Keeps-look _ _ (λ st ci (h, k, s) e.
      let it : st.instruction ≡ ci = ground arith in
      let own : garden_key ci ≡ key = ap garden_key (sym it) ∙ k in
      Keeps-bind _ _
        (Keeps-write _ (λ st (h, k, s).
          (same_auth st _ _ h, k, rw own (stop_existing-Knows key hash st.fleet s))))
        (λ _. Keeps-bind _ _ (Keeps-read _) (λ client.
          Keeps-bind _ _
            (Keeps-write _ (λ st (h, k, s). (
              same_auth st _ _ h,
              k,
              rw own (start-Knows key hash st.fleet config client ci.spec s),
            )))
            (λ _.
              Keeps-bind _ _ (Keeps-write _ (λ st (h, k, s). (same_auth st _ _ h, k, s)))
                (λ _. Keeps-write _ (condition-Seeded _))))))

  reconcile_manager-Seeded :
      Ensures Before (λ (_ : Unit {0}). Seeded) (reconcile_manager C G greenhouse)
  unfolding reconcile_manager
  reconcile_manager-Seeded =
      Ensures-bind (λ c st. (garden_key c ≡ key) × Before st) _ _
        (Ensures-read _ (λ st c (h, k, n) e.
          let it : st.instruction ≡ c = ground arith in (ap garden_key (sym it) ∙ k, (h, k, n))))
        (λ c.
          Ensures-bind (λ x st. (x ≡ hash) × (garden_key c ≡ key) × Before st) _ _
            (Ensures-read _
              (λ st x (own, b) e. let it = initial_hash-HasAuth st b in (ground arith, own, b)))
            (λ x. Ensures-after _ _ (Keeps-read _) (λ known.
              Ensures-bind (λ _. Seeded) _ _
                (Ensures-write _ (λ st _ (eq, own, (h, k, n)) e. (
                  same_auth st _ _ h,
                  k,
                  rw (own, eq) (register-Knows key hash st.fleet c.spec n),
                )))
                (λ _. Ensures-kept _ (
                  Keeps-bind _ _ (Keeps-write _ (λ st (h, k, s). (same_auth st _ _ h, k, s))) (λ _.
                    Keeps-tried _ _ (Keeps-read _)
                      (λ e.
                        Keeps-bind _ _ (Keeps-write _ (condition-Seeded _)) (λ _. Keeps-raise e))
                      (λ (config, scheme). Keeps-bind _ _ (Keeps-write _ (condition-Seeded _)) (λ _.
                        Keeps-bind _ _ (Keeps-read _) (λ current.
                          Keeps-if current _ _ (λ _. Keeps-pure tt)
                            (λ _. Keeps-recreate_manager config scheme))))))))))

module _ {W : Type 0} (C : ConditionApi) (G : GardenApi W) (R : MapRange)
    (greenhouse : Client W) where
  -- If a CareInstruction that has no garden yet names a ConfigMap that can be read, and
  -- reconcileManager returns no error, then a look at the auth ConfigMap with this content changes
  -- nothing: the manager that was just started is not restarted.
  pub handle_auth_change-reconcile_manager :
      (s : Run (State G.RestConfig W)) (cm : ConfigMap)
      → HasAuth C G R greenhouse s.world cm
      → lookup (garden_key s.world.instruction) s.world.fleet.gardens ≡ none
      → (reconcile_manager C G greenhouse s).0 ≡ ok tt
      → (handle_auth_change C G R greenhouse (reconcile_manager C G greenhouse s).1).1.world
        ≡ (reconcile_manager C G greenhouse s).1.world
  handle_auth_change-reconcile_manager s cm h n e =
      let key = garden_key s.world.instruction in
      let (h', k, knows) =
        (reconcile_manager-Seeded C G R greenhouse key cm).at s tt (h, refl, n) e in
      same_hash C G R greenhouse (reconcile_manager C G greenhouse s).1 cm h'
        (rw (k, knows.is_there) knows.is_its)
