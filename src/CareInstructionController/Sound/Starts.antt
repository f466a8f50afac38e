-- ===== src/CareInstructionController/Sound/Starts.antt =====
-- Starting, restarting and removing a manager keep the gardens sound.
use shoot_grafter.Base.{ℕ, String, none, ◌≡◌, ◌≢◌, ◌⊎◌, arith, inl, inr, Option-cases}
use shoot_grafter.Base.Dict.{lookup, lookup-insert, lookup-delete}
use shoot_grafter.Api.{CareInstructionSpec}
use shoot_grafter.CareInstructionController.{Fleet}
use shoot_grafter.CareInstructionController.Gardens.{started, start, restart, remove}
use shoot_grafter.CareInstructionController.Sound.{IsSound, IsHalted}

nat_eq-cases : (m n : ℕ) → (m ≡ n) ⊎ (m ≢ n)
nat_eq-cases m n = ground arith

module _ {Config C : Type 0} (key : String) (f : Fleet Config C) (S : IsSound f) where
  pub remove-IsSound : IsSound (remove key f)
  unfolding remove
  remove-IsSound = elim (Option-cases (lookup key f.gardens)) [
    | inl e ↦ rw (remove, e) S
    | inr (g, e) ↦ elim (Option-cases g.cancel_func) [
      | inl c ↦ rw (remove, e, c) S
      | inr (m, c) ↦
          rw (remove, e, c)
            (record {
              made = λ k h n l d. ground (arith, lookup-delete k key f.gardens, S.made k h n);
              own = λ k h n l d. ground (arith, lookup-delete k key f.gardens, S.own k h n);
              apart = λ j k h i n a b d o. ground (
                arith,
                lookup-delete j key f.gardens,
                lookup-delete k key f.gardens,
                S.apart j k h i n,
              );
              client = λ k h n l d. ground (arith, lookup-delete k key f.gardens, S.client k h n);
              past = S.past;
              kept = λ n b d.
                  let R = S.kept n b (ground arith) in
                  record {
                    key = R.key;
                    garden = R.garden;
                    is_there = ground (
                      arith,
                      lookup-delete R.key key f.gardens,
                      R.is_there,
                      R.is_its,
                      S.own R.key R.garden n,
                    );
                    is_its = R.is_its;
                  };
            })
    ]
  ]

  pub restart-IsSound : IsSound (restart key f).1
  unfolding restart
  restart-IsSound = elim (Option-cases (lookup key f.gardens)) [
    | inl e ↦ rw (restart, e) S
    | inr (g, e) ↦ elim (Option-cases g.cancel_func) [
      | inl c ↦ rw (restart, e, c) S
      | inr (m, c) ↦
          let halted = record g { mgr = none } in
          rw (restart, e, c)
            (record {
              made = λ k h n l d.
                  ground (arith, lookup-insert k key halted f.gardens, S.made k h n, S.made k g n);
              own = λ k h n l d. ground (arith, lookup-insert k key halted f.gardens, S.own k h n);
              apart = λ j k h i n a b d o. ground (
                arith,
                lookup-insert j key halted f.gardens,
                lookup-insert k key halted f.gardens,
                S.apart j k h i n,
                S.apart j k g i n,
                S.apart j k h g n,
              );
              client =
                  λ k h n l d. ground (arith, lookup-insert k key halted f.gardens, S.client k h n);
              past = S.past;
              kept = λ n b d.
                  let R = S.kept n b (ground arith) in
                  record {
                    key = R.key;
                    garden = R.garden;
                    is_there = ground (
                      arith,
                      lookup-insert R.key key halted f.gardens,
                      R.is_there,
                      R.is_its,
                      S.own R.key R.garden n,
                    );
                    is_its = R.is_its;
                  };
            })
    ]
  ]

  pub start-IsSound :
      IsHalted key f
      → (config : Config) (client : C) (spec : CareInstructionSpec)
      → IsSound (start key config client spec f)
  unfolding start
  start-IsSound H config client spec = elim (Option-cases (lookup key f.gardens)) [
    | inl e ↦ rw (start, e) S
    | inr (g, e) ↦
        let new = started config client spec f.next g in
        rw (start, e)
          (record {
            made = λ k h n l d. ground (arith, lookup-insert k key new f.gardens, S.made k h n);
            own = λ k h n l d. ground (arith, lookup-insert k key new f.gardens, S.own k h n);
            apart = λ j k h i n a b d o. ground (
              arith,
              lookup-insert j key new f.gardens,
              lookup-insert k key new f.gardens,
              S.apart j k h i n,
              S.made j h n,
              S.made k i n,
            );
            client = λ k h n l d. ground (arith, lookup-insert k key new f.gardens, S.client k h n);
            past = λ n d. ground (arith, S.past n);
            kept = λ n b d. elim (nat_eq-cases n f.next) [
              | inl q ↦ record {
                key = key;
                garden = new;
                is_there = ground (arith, lookup-insert key key new f.gardens);
                is_its = ground arith;
              }
              | inr q ↦
                  let R = S.kept n (ground arith) d in
                  record {
                    key = R.key;
                    garden = R.garden;
                    is_there = ground (
                      arith,
                      lookup-insert R.key key new f.gardens,
                      R.is_there,
                      R.is_its,
                      H.halted R.garden n,
                    );
                    is_its = R.is_its;
                  }
            ];
          })
  ]
