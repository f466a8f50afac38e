-- ===== src/Watch/Noise.antt =====
-- predicates.go: what an update that PredicateShootStatusNoise drops leaves as it is.
use shoot_grafter.Base.{String, Bool, true, false, ◌||◌, List, ◌≡◌, refl, ap, arith}
use shoot_grafter.Base.Dict.{GoMap, lookup, entries}
use shoot_grafter.Kube.{Shoot, ShootSpec, AdvertisedAddress}
use shoot_grafter.Watch.{Semantic, passes_status_noise}
use shoot_grafter.ShootController.SecretData.{api_server_url, is_workerless}

-- What is documented of the comparison: what it takes for equal is equal, but that a nil map and
-- an empty one are the same.
pub record IsSemantic (E : Semantic) : Type 0 where
  pub same_spec_lem : (a b : ShootSpec) → E.same_spec a b ≡ true → a ≡ b
  pub same_map_lem :
      (a b : GoMap String) (k : String)
      → E.same_map a b ≡ true
      → lookup k (entries a) ≡ lookup k (entries b)
  pub same_addresses_lem : (a b : List AdvertisedAddress) → E.same_addresses a b ≡ true → a ≡ b

or-false : (a b : Bool) → (a || b) ≡ false → (a ≡ false) × (b ≡ false)
or-false true b e = ground arith
or-false false b e = (refl, e)

module _ (E : Semantic) (L : IsSemantic E) where
  dropped-same :
      (old new : Shoot)
      → passes_status_noise E old new ≡ false
      → (E.same_spec old.spec new.spec ≡ true)
        × (E.same_map old.labels new.labels ≡ true)
        × (E.same_addresses old.advertised_addresses new.advertised_addresses ≡ true)
  unfolding passes_status_noise
  dropped-same old new e = ground arith

  -- An update that PredicateShootStatusNoise drops changes nothing that Reconcile reads of a Shoot
  -- to make its Secret: the URL of the API server, whether the Shoot has workers, and its labels
  -- are as before. Neither does it change the rest of the modelled specification.
  pub passes_status_noise_lem :
      (old new : Shoot)
      → passes_status_noise E old new ≡ false
      → (api_server_url "" old.advertised_addresses ≡ api_server_url "" new.advertised_addresses)
        × (is_workerless old ≡ is_workerless new)
        × ((k : String) → lookup k (entries old.labels) ≡ lookup k (entries new.labels))
        × (old.spec ≡ new.spec)
  passes_status_noise_lem old new e =
      let (spec, labels, addresses) = dropped-same old new e in
      let same = L.same_spec_lem old.spec new.spec spec in
      (
        ap (api_server_url "") (L.same_addresses_lem _ _ addresses),
        ap (λ (s : ShootSpec). is_workerless (record new { spec = s })) same,
        λ k. L.same_map_lem old.labels new.labels k labels,
        same,
      )
