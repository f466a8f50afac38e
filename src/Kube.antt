-- ===== src/Kube.antt =====
-- The shapes of the objects that the controllers read and write, as far as they use them, and
-- Go's `error`. The types are those of the Kubernetes, Gardener and Greenhouse APIs.
pub mod Conditions
pub mod Exec
pub mod Client
use shoot_grafter.Base.{
  ℕ, ◌≡◌, ◌⊎◌, inl, inr, refl, String, Option, Bool, true, false, List, ◌<>◌, ◌==◌, text_dec,
}
use shoot_grafter.Base.Dict.{Dict, GoMap}

-- What `apierrors.IsNotFound` and `apierrors.IsConflict` tell apart.
pub data Reason : Type 0 where
  not_found conflict other_reason : Reason

pub record Error : Type 0 where
  pub reason : Reason
  pub message : String

-- `errors.New`
abbrev pub new_error : String → Error
new_error text = record { reason = other_reason; message = text }

-- `fmt.Errorf("text: %w", err)`, which `IsNotFound` sees through.
abbrev pub wrap : String → Error → Error
wrap text e = record e { message = text <> ": " <> e.message }

abbrev pub is_reason_not_found : Reason → Bool
is_reason_not_found not_found = true
is_reason_not_found _ = false

abbrev pub is_reason_conflict : Reason → Bool
is_reason_conflict conflict = true
is_reason_conflict _ = false

-- `apierrors.IsNotFound(err)`, for an error that is not nil
abbrev pub is_not_found : Error → Bool
is_not_found e = is_reason_not_found e.reason

-- `apierrors.IsConflict(err)`
abbrev pub is_conflict : Error → Bool
is_conflict e = is_reason_conflict e.reason

-- A call that returns a value and an error.
pub data Result {ℓ} (A : Type ℓ) : Type ℓ where
  ok : A → Result A
  err : Error → Result A

pub Result-cases {ℓ} :
    {A : Type ℓ} (r : Result A) → ((a : A) × (r ≡ ok a)) ⊎ ((e : Error) × (r ≡ err e))
Result-cases (ok a) = inl (a, refl)
Result-cases (err e) = inr (e, refl)

pub record ObjectMeta : Type 0 where
  pub name : String
  pub namespace : String
  pub labels : GoMap String
  pub annotations : GoMap String

-- `status.conditions` of a Greenhouse resource, without the transition times
pub record Condition : Type 0 where
  pub type : String
  pub status : String
  pub reason : String
  pub message : String

pub record Cluster : Type 0 where
  pub meta : ObjectMeta
  pub open meta use *
  pub conditions : List Condition

pub record ConfigMap : Type 0 where
  pub meta : ObjectMeta
  pub open meta use *
  pub contents : GoMap String

pub record Secret : Type 0 where
  pub meta : ObjectMeta
  pub open meta use *
  pub contents : GoMap String
  pub type : String

pub record AdvertisedAddress : Type 0 where
  pub name : String
  pub url : String

-- `spec.kubernetes.kubeAPIServer`: each level may be nil.
pub record StructuredAuthentication : Type 0 where
  pub config_map_name : String

pub record KubeApiServer : Type 0 where
  pub structured_authentication : Option StructuredAuthentication

pub record ShootSpec : Type 0 where
  pub workers : List String
  pub kube_api_server : Option KubeApiServer

pub record Shoot : Type 0 where
  pub meta : ObjectMeta
  pub open meta use *
  -- of the metadata
  pub generation : ℕ
  pub spec : ShootSpec
  pub advertised_addresses : List AdvertisedAddress
  pub last_operation_state : Option String

-- `client.ObjectKey`, and the `NamespacedName` of a `ctrl.Request`
pub record ObjectKey : Type 0 where
  pub namespace : String
  pub name : String

-- `metav1.LabelSelector`
pub record LabelSelectorRequirement : Type 0 where
  pub key : String
  pub operator : String
  pub values : List String

pub record LabelSelector : Type 0 where
  pub match_labels : GoMap String
  pub match_expressions : List LabelSelectorRequirement
