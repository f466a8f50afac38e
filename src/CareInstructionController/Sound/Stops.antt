-- ===== src/CareInstructionController/Sound/Stops.antt =====
-- Adding a garden and stopping its manager keep the gardens sound.
use shoot_grafter.Base.{
  ℕ, ◌+◌, ◌≤◌, String, true, Option, none, some, [], ◌≡◌, refl, sym, ◌∙◌, ap, arith, inl, inr,
  Option-cases, text_dec,
}
use shoot_grafter.Base.Dict.{lookup, insert, lookup-nil, lookup-insert}
use shoot_grafter.Api.{CareInstructionSpec}
use shoot_grafter.CareInstructionController.{Garden, Fleet}
use shoot_grafter.CareInstructionController.Gardens.{
  has, new_garden, register, cancel, stop_manager, stop_existing, manager_stops, set_hash, set_spec,
}
use shoot_grafter.CareInstructionController.Sound.{IsSound, IsHalted}

module _ {Config C : Type 0} (key : String) (f : Fleet Config C) (S : IsSound f) where
  pub register-IsSound :
      (spec : CareInstructionSpec) (hash : String) → IsSound (register key spec hash f)
  unfolding register
  register-IsSound spec hash =
      let new : Garden Config C = new_garden spec hash in
      elim (Option-cases (lookup key f.gardens)) [
        | inl e ↦
            rw (register, e)
              (record {
                made = λ k g n l c. ground (arith, lookup-insert k key new f.gardens, S.made k g n);
                own = λ k g n l c. ground (arith, lookup-insert k key new f.gardens, S.own k g n);
                apart = λ j k g h n a b c d. ground (
                  arith,
                  lookup-insert j key new f.gardens,
                  lookup-insert k key new f.gardens,
                  S.apart j k g h n,
                );
                client =
                    λ k g n l c. ground (arith, lookup-insert k key new f.gardens, S.client k g n);
                past = S.past;
                kept = λ n b c.
                    let R = S.kept n b c in
                    record {
                      key = R.key;
                      garden = R.garden;
                      is_there = ground (arith, lookup-insert R.key key new f.gardens, R.is_there);
                      is_its = R.is_its;
                    };
              })
        | inr (g, e) ↦ rw (register, e) S
      ]

  cancel-IsSound : (c : Option ℕ) → IsSound (cancel c f)
  cancel-IsSound none = S
  cancel-IsSound (some m) = record {
    made = S.made;
    own = S.own;
    apart = S.apart;
    client = S.client;
    past = S.past;
    kept = λ n b c.
        let R = S.kept n b (ground arith) in
        record { key = R.key; garden = R.garden; is_there = R.is_there; is_its = R.is_its };
  }

  stop_manager-IsSound : (m c : Option ℕ) → IsSound (stop_manager m c f)
  stop_manager-IsSound none c = S
  stop_manager-IsSound (some m) c = cancel-IsSound c

  pub stop_existing-IsSound : IsSound (stop_existing key f)
  unfolding stop_existing
  stop_existing-IsSound = elim (Option-cases (lookup key f.gardens)) [
    | inl e ↦ rw (stop_existing, e) S
    | inr (g, e) ↦ rw (stop_existing, e) (stop_manager-IsSound g.mgr g.cancel_func)
  ]

  pub stop_manager-gardens : (m c : Option ℕ) → (stop_manager m c f).gardens ≡ f.gardens
  stop_manager-gardens none c = refl
  stop_manager-gardens (some m) none = refl
  stop_manager-gardens (some m) (some n) = refl

  stop_manager-cancelled :
      (m c : Option ℕ) (n : ℕ)
      → m ≡ some n
      → c ≡ some n
      → has n (stop_manager m c f).cancelled ≡ true
  stop_manager-cancelled none c n e d = ground arith
  stop_manager-cancelled (some m) none n e d = ground arith
  stop_manager-cancelled (some m) (some k) n e d = ground arith

  pub stop_existing-IsHalted : IsHalted key (stop_existing key f)
  unfolding stop_existing
  stop_existing-IsHalted = elim (Option-cases (lookup key f.gardens)) [
    | inl e ↦ rw (stop_existing, e) (record { halted = λ h n l d. ground arith })
    | inr (g, e) ↦
        rw (stop_existing, e)
          (record {
            halted = λ h n l d.
                let same : some g ≡ some h =
                  sym e ∙ ap (lookup key) (sym (stop_manager-gardens g.mgr g.cancel_func)) ∙ l in
                let its : g.mgr ≡ some n = ground arith in
                stop_manager-cancelled g.mgr g.cancel_func n its (S.own key g n e its);
          })
  ]

  -- A change of a garden that leaves its manager, its cancel function and its client alone.
  module _ (g new : Garden Config C) (e : lookup key f.gardens ≡ some g)
      (same_mgr : new.mgr ≡ g.mgr) (same_cancel : new.cancel_func ≡ g.cancel_func)
      (same_client : new.garden_client ≡ g.garden_client) where
    replaced-IsSound : IsSound (record f { gardens = insert key new f.gardens })
    replaced-IsSound = record {
      made = λ k h n l d.
          ground (arith, lookup-insert k key new f.gardens, S.made k h n, S.made k g n);
      own =
          λ k h n l d. ground (arith, lookup-insert k key new f.gardens, S.own k h n, S.own k g n);
      apart = λ j k h i n a b c d. ground (
        arith,
        lookup-insert j key new f.gardens,
        lookup-insert k key new f.gardens,
        S.apart j k h i n,
        S.apart j k g i n,
        S.apart j k h g n,
      );
      client = λ k h n l d.
          ground (arith, lookup-insert k key new f.gardens, S.client k h n, S.client k g n);
      past = S.past;
      kept = λ n b d.
          let R = S.kept n b d in
          elim (text_dec R.key key) [
            | yes y ↦ record {
              key = key;
              garden = new;
              is_there = ground (arith, lookup-insert key key new f.gardens);
              is_its = ground (arith, R.is_there, R.is_its);
            }
            | no n ↦ record {
              key = R.key;
              garden = R.garden;
              is_there = ground (arith, lookup-insert R.key key new f.gardens, R.is_there);
              is_its = R.is_its;
            }
          ];
    }

  pub set_hash-IsSound : (hash : String) → IsSound (set_hash key hash f)
  unfolding set_hash
  set_hash-IsSound hash = elim (Option-cases (lookup key f.gardens)) [
    | inl e ↦ rw (set_hash, e) S
    | inr (g, e) ↦
        rw (set_hash, e)
          (replaced-IsSound g (record g { auth_config_map_hash = hash }) e refl refl refl)
  ]

  pub set_spec-IsSound : (spec : CareInstructionSpec) → IsSound (set_spec key spec f)
  unfolding set_spec
  set_spec-IsSound spec = elim (Option-cases (lookup key f.gardens)) [
    | inl e ↦ rw (set_spec, e) S
    | inr (g, e) ↦
        rw (set_spec, e)
          (replaced-IsSound g (record g { care_instruction_spec = spec }) e refl refl refl)
  ]

  pub manager_stops-IsSound : (n : ℕ) → 1 + n ≤ f.next → IsSound (manager_stops n f)
  unfolding manager_stops
  manager_stops-IsSound n made = record {
    made = S.made;
    own = S.own;
    apart = S.apart;
    client = S.client;
    past = λ m b. ground (arith, S.past m);
    kept = λ m b c.
        let R = S.kept m b c in
        record { key = R.key; garden = R.garden; is_there = R.is_there; is_its = R.is_its };
  }

pub no_garden-IsSound :
    {Config C : Type 0}
    → IsSound {Config = Config} {C = C}
        (record { gardens = []; next = 0; cancelled = []; closed = [] })
no_garden-IsSound {Config = Config} {C = C} = record {
  made = λ k g n l c. ground (arith, lookup-nil {V = Garden Config C} k);
  own = λ k g n l c. ground (arith, lookup-nil {V = Garden Config C} k);
  apart = λ j k g h n a b c d. ground (arith, lookup-nil {V = Garden Config C} k);
  client = λ k g n l c. ground (arith, lookup-nil {V = Garden Config C} k);
  past = λ n b. ground arith;
  kept = λ n b c. ground arith;
}
