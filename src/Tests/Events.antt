-- ===== src/Tests/Events.antt =====
-- An update of a Shoot that changes nothing that matters.
use shoot_grafter.Base.{
  String, Bool, true, false, ◌&&◌, Option, none, some, List, [], ◌∷◌, ◌≡◌, refl, ap, arith, ◌==◌,
  text_dec,
}
use shoot_grafter.Base.Dict.{Dict, GoMap, lookup, entries}
use shoot_grafter.Kube.{AdvertisedAddress, StructuredAuthentication, KubeApiServer, Shoot}
use shoot_grafter.ShootController.SecretData.{api_server_url, is_workerless}
use shoot_grafter.Watch.{Semantic, passes_status_noise}
use shoot_grafter.Watch.Noise.{IsSemantic, passes_status_noise_lem}
use shoot_grafter.Tests.Clusters.{meta_of}

abbrev same_texts : List String → List String → Bool
same_texts [] [] = true
same_texts [] (_ ∷ _) = false
same_texts (_ ∷ _) [] = false
same_texts (s ∷ ss) (t ∷ ts) = s == t && same_texts ss ts

abbrev same_dict : Dict String → Dict String → Bool
same_dict [] [] = true
same_dict [] (_ ∷ _) = false
same_dict (_ ∷ _) [] = false
same_dict ((j, v) ∷ m) ((k, w) ∷ n) = j == k && v == w && same_dict m n

abbrev same_addresses : List AdvertisedAddress → List AdvertisedAddress → Bool
same_addresses [] [] = true
same_addresses [] (_ ∷ _) = false
same_addresses (_ ∷ _) [] = false
same_addresses (a ∷ xs) (b ∷ ys) = a.name == b.name && a.url == b.url && same_addresses xs ys

abbrev same_structured : Option StructuredAuthentication → Option StructuredAuthentication → Bool
same_structured none none = true
same_structured none (some _) = false
same_structured (some _) none = false
same_structured (some a) (some b) = a.config_map_name == b.config_map_name

abbrev same_server : Option KubeApiServer → Option KubeApiServer → Bool
same_server none none = true
same_server none (some _) = false
same_server (some _) none = false
same_server (some a) (some b) =
    same_structured a.structured_authentication b.structured_authentication

abbrev pub semantic : Semantic
semantic = record {
  same_spec =
      λ a b. same_texts a.workers b.workers && same_server a.kube_api_server b.kube_api_server;
  same_map = λ a b. same_dict (entries a) (entries b);
  same_addresses = same_addresses;
}

same_texts_lem : (ss ts : List String) → same_texts ss ts ≡ true → ss ≡ ts
same_texts_lem [] [] e = refl
same_texts_lem [] (_ ∷ _) e = ground arith
same_texts_lem (_ ∷ _) [] e = ground arith
same_texts_lem (s ∷ ss) (t ∷ ts) e = ground (arith, same_texts_lem ss ts)

same_dict_lem : (m n : Dict String) → same_dict m n ≡ true → m ≡ n
same_dict_lem [] [] e = refl
same_dict_lem [] (_ ∷ _) e = ground arith
same_dict_lem (_ ∷ _) [] e = ground arith
same_dict_lem ((j, v) ∷ m) ((k, w) ∷ n) e = ground (arith, same_dict_lem m n)

same_addresses_lem : (xs ys : List AdvertisedAddress) → same_addresses xs ys ≡ true → xs ≡ ys
same_addresses_lem [] [] e = refl
same_addresses_lem [] (_ ∷ _) e = ground arith
same_addresses_lem (_ ∷ _) [] e = ground arith
same_addresses_lem (a ∷ xs) (b ∷ ys) e = ground (arith, same_addresses_lem xs ys)

same_server_lem : (a b : Option KubeApiServer) → same_server a b ≡ true → a ≡ b
same_server_lem none none e = refl
same_server_lem none (some _) e = ground arith
same_server_lem (some _) none e = ground arith
same_server_lem (some a) (some b) e = ground arith

semantic-IsSemantic : IsSemantic semantic
semantic-IsSemantic = record {
  same_spec_lem = λ a b e. ground (
    arith,
    same_texts_lem a.workers b.workers,
    same_server_lem a.kube_api_server b.kube_api_server,
  );
  same_map_lem = λ a b k e. ap (lookup k) (same_dict_lem (entries a) (entries b) e);
  same_addresses_lem = same_addresses_lem;
}

-- A Shoot with these annotations.
abbrev shoot_with : GoMap String → Shoot
shoot_with annotations = record {
  meta = record (meta_of "garden-project" "a" (some (("region", "eu") ∷ []))) {
    annotations = annotations;
  };
  generation = 1;
  spec = record { workers = "w" ∷ []; kube_api_server = none };
  advertised_addresses = record { name = "external"; url = "https://a" } ∷ [];
  last_operation_state = some "Succeeded";
}

-- An update from no map of annotations to an empty one.
passes_status_noise_example :
    (api_server_url "" (shoot_with none).advertised_addresses
      ≡ api_server_url "" (shoot_with (some [])).advertised_addresses)
    × (is_workerless (shoot_with none) ≡ is_workerless (shoot_with (some [])))
    × ((k : String)
        → lookup k (entries (shoot_with none).labels)
          ≡ lookup k (entries (shoot_with (some [])).labels))
    × ((shoot_with none).spec ≡ (shoot_with (some [])).spec)
unfolding passes_status_noise text_dec
passes_status_noise_example =
    passes_status_noise_lem semantic semantic-IsSemantic (shoot_with none) (shoot_with (some []))
      refl
