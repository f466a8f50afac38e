-- ===== src/Tests/Wiring.antt =====
-- Updates of objects that the controller of CareInstructions watches.
use mathlib.Core.List.{Memᴰ}
use mathlib.Core.List.Memᴰ
use shoot_grafter.Base.{
  none, true, some, List, [], ◌∷◌, ◌++◌, ◌↔◌, ◌⊎◌, ◌≡◌, refl, inl, inr, contains, is_some,
}
use shoot_grafter.Base.Dict.{lookup, entries, lookup-nil}
use shoot_grafter.Kube.{ok, ObjectKey, ConfigMap, Secret}
use shoot_grafter.Api.{care_instruction_label, auth_config_map_label}
use shoot_grafter.Watch.{key_of}
use shoot_grafter.Watch.Requests.{Asks}
use shoot_grafter.Watch.Wiring.{
  Event, on_create, on_delete, on_generic, on_update, subject, WatchApi, IsWatchApi, Concerns,
  secret_requests, cluster_requests, auth_requests,
}
use shoot_grafter.Watch.Asked.{IsOwner, Differs, watches_iff}
use shoot_grafter.Tests.Clusters.{mine, meta_of, cluster_of_owner}

-- The requests for the objects of an event one after the other.
abbrev asked : (A : Type 0) → (A → List ObjectKey) → Event A → List ObjectKey
asked A f (on_create a) = f a
asked A f (on_delete a) = f a
asked A f (on_generic a) = f a
asked A f (on_update old new) = f old ++ f new

abbrev pub plain_watches : WatchApi
plain_watches = record { new_predicate_funcs = λ A p e. p (subject e); enqueue_requests = asked }

asked_iff :
    (A : Type 0) (f : A → List ObjectKey) (e : Event A) (k : ObjectKey)
    → Memᴰ k (asked A f e) ↔ Concerns (λ a. Memᴰ k (f a)) e
asked_iff A f (on_create a) k = (λ m. m, λ m. m)
asked_iff A f (on_delete a) k = (λ m. m, λ m. m)
asked_iff A f (on_generic a) k = (λ m. m, λ m. m)
asked_iff A f (on_update old new) k = (
  λ m. Memᴰ.append_cases (f old) m,
  elim [ inl m ↦ Memᴰ.append_left (f new) m | inr m ↦ Memᴰ.append_right (f old) m ],
)

pub plain-IsWatchApi : IsWatchApi plain_watches
plain-IsWatchApi = record { test = λ A p e. refl; requests = asked_iff }

abbrev auth_map : ConfigMap
auth_map = record { meta = meta_of "greenhouse" "auth" none; contents = none }

abbrev garden_secret : Secret
garden_secret = record {
  meta = meta_of "greenhouse" "garden" none;
  contents = none;
  type = "Opaque";
}

-- The ConfigMap with its label and a content.
abbrev labelled_map : ConfigMap
labelled_map = record {
  meta = meta_of "greenhouse" "auth" (some ((auth_config_map_label, "true") ∷ []));
  contents = some (("config.yaml", "jwt") ∷ []);
}

watches_iff_example :
    (Memᴰ (key_of mine.meta) (
        secret_requests plain_watches
          ("Opaque" ∷ [])
          (ok (mine ∷ []))
          (on_update garden_secret garden_secret))
      ↔ ((contains "Opaque" ("Opaque" ∷ []) ≡ true)
          × Asks (λ ci. ci.spec.garden_cluster_name ≡ "garden") (mine ∷ []) (key_of mine.meta)))
    × (Memᴰ (key_of mine.meta) (
          cluster_requests plain_watches
            (on_update (cluster_of_owner "a" "mine") (cluster_of_owner "a" "other")))
        ↔ ((is_some (lookup care_instruction_label (entries (cluster_of_owner "a" "other").labels))
              ≡ true)
            × (IsOwner (cluster_of_owner "a" "mine") (key_of mine.meta)
                ⊎ IsOwner (cluster_of_owner "a" "other") (key_of mine.meta))))
    × (Memᴰ (key_of mine.meta) (
          auth_requests plain_watches
            (λ namespace. ok (mine ∷ []))
            (on_update auth_map labelled_map))
        ↔ ((is_some (lookup auth_config_map_label (entries labelled_map.labels)) ≡ true)
            × Differs auth_map labelled_map
            × Asks
                (λ ci. ci.spec.authentication_config_map_name ≡ "auth")
                (mine ∷ [])
                (key_of mine.meta)))
watches_iff_example =
    watches_iff plain_watches plain-IsWatchApi ("Opaque" ∷ []) (mine ∷ [])
      (λ namespace. ok (mine ∷ [])) (mine ∷ []) garden_secret garden_secret
      (cluster_of_owner "a" "mine") (cluster_of_owner "a" "other") auth_map labelled_map
      (key_of mine.meta) refl refl refl refl tt (lookup-nil "config.yaml", tt)
