-- ===== src/Registry.antt =====
-- include/rmw_iceoryx2_cxx/impl/runtime/sample_registry.hpp: the loaned samples by the address of
-- their payload. The `unordered_map` is an association list, whose order no operation shows; a
-- reference to a stored sample is its value.
pub mod Laws
use rmw_iceoryx.Common.{
  ℕ, Option, none, some, List, [], ◌∷◌, Expected, ok, err, ◌==◌, if◌then◌else◌, is_some,
}
use rmw_iceoryx.Errors.{SampleRegistryError}

module _ {ℓ} {SampleType : Type ℓ} where
  -- `m_samples.find`
  unfoldable pub find : ℕ → List (ℕ × SampleType) → Option SampleType
  find p [] = none
  find p ((q, a) ∷ m) = if q == p then some a else find p m

  -- `m_samples.emplace`: a key that is there keeps its sample
  unfoldable pub emplace : ℕ → SampleType → List (ℕ × SampleType) → List (ℕ × SampleType)
  unfolding find
  emplace p a m = if is_some (find p m) then m else (p, a) ∷ m

  -- `m_samples.erase`
  unfoldable pub erase : ℕ → List (ℕ × SampleType) → List (ℕ × SampleType)
  erase p [] = []
  erase p ((q, a) ∷ m) = if q == p then m else (q, a) ∷ erase p m

pub record SampleRegistry {ℓ} (SampleType : Type ℓ) : Type ℓ where
  pub samples : List (ℕ × SampleType)

module _ {ℓ} {SampleType : Type ℓ} where
  abbrev pub empty : SampleRegistry SampleType
  empty = record { samples = [] }

  -- The sample's payload address is read, and the sample moved into the map.
  unfoldable pub store :
      (SampleType → ℕ) → SampleType → SampleRegistry SampleType → ℕ × SampleRegistry SampleType
  unfolding emplace
  store payload sample r =
      (payload sample, record { samples = emplace (payload sample) sample r.samples })

  unfoldable pub retrieve : ℕ → SampleRegistry SampleType → Option SampleType
  unfolding find
  retrieve loaned_memory r = find loaned_memory r.samples

  release_found :
      ℕ
      → Option SampleType
      → SampleRegistry SampleType
      → Expected SampleRegistryError SampleType × SampleRegistry SampleType
  unfolding erase
  release_found p none r = (err SampleRegistryError.invalid_payload, r)
  release_found p (some a) r = (ok a, record { samples = erase p r.samples })

  unfoldable pub release :
      ℕ
      → SampleRegistry SampleType
      → Expected SampleRegistryError SampleType × SampleRegistry SampleType
  unfolding find release_found
  release loaned_memory r = release_found loaned_memory (find loaned_memory r.samples) r
