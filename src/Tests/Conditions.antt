-- ===== src/Tests/Conditions.antt =====
-- A condition list as Greenhouse documents it.
use shoot_grafter.Base.{
  String, Bool, false, Option, none, some, List, [], ◌∷◌, ◌≡◌, refl, ◌≢◌, ◌==◌, if◌then◌else◌, All,
  arith,
}
use shoot_grafter.Kube.{Condition}
use shoot_grafter.Kube.Conditions.{
  ConditionApi, IsLawful, condition_true, condition_false, condition_unknown,
}

abbrev pub set_in : Condition → List Condition → List Condition
set_in c [] = c ∷ []
set_in c (d ∷ cs) = if d.type == c.type then c ∷ cs else d ∷ set_in c cs

abbrev pub get_in : List Condition → String → Option Condition
get_in [] t = none
get_in (c ∷ cs) t = if c.type == t then some c else get_in cs t

abbrev is_true_in : Option Condition → Bool
is_true_in none = false
is_true_in (some c) = c.status == condition_true

abbrev pub greenhouse : ConditionApi
greenhouse = record {
  set_condition = set_in;
  get_condition_by_type = get_in;
  true_condition = λ t r m. record { type = t; status = condition_true; reason = r; message = m };
  false_condition = λ t r m. record { type = t; status = condition_false; reason = r; message = m };
  unknown_condition =
      λ t r m. record { type = t; status = condition_unknown; reason = r; message = m };
  is_true = is_true_in;
  is_ready_true = λ cs. is_true_in (get_in cs "Ready");
  ready_condition = "Ready";
}

get-set_in :
    (c : Condition) (cs : List Condition) (t : String)
    → get_in (set_in c cs) t ≡ (if t == c.type then some c else get_in cs t)
get-set_in c [] t = ground arith
get-set_in c (_ ∷ cs) t = ground (arith, get-set_in c cs t)

get_in-none : (cs : List Condition) (t : String) → get_in cs t ≡ none → All (λ c. c.type ≢ t) cs
get_in-none [] t e = tt
get_in-none (c ∷ cs) t e = ground (arith, get_in-none cs t)

none-get_in : (cs : List Condition) (t : String) → All (λ c. c.type ≢ t) cs → get_in cs t ≡ none
none-get_in [] t h = refl
none-get_in (c ∷ cs) t (n, h) = ground (arith, none-get_in cs t h)

pub greenhouse-IsLawful : IsLawful greenhouse
greenhouse-IsLawful = record {
  get-set = get-set_in;
  get-eq-none_iff = λ cs t. (get_in-none cs t, none-get_in cs t);
  true_condition_lem = λ t r m. refl;
  false_condition_lem = λ t r m. refl;
  unknown_condition_lem = λ t r m. refl;
  is_true_iff = λ c. (λ e. ground arith, λ e. ground arith);
  ready_condition_lem = refl;
}
