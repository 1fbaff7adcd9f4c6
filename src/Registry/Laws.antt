-- ===== src/Registry/Laws.antt =====
-- The registry as a finite map from addresses to samples.
use rmw_iceoryx.Common.{
  ℕ, ◌≡◌, false, Option, none, some, List, [], ◌∷◌, Expected, ok, err, arith, ◌==◌, if◌then◌else◌,
  is_some, eq_refl, All,
}
use rmw_iceoryx.Errors.{SampleRegistryError}
use rmw_iceoryx.Registry.{
  SampleRegistry, empty, find, emplace, erase, store, retrieve, release, release_found,
}

module _ {ℓ} {SampleType : Type ℓ} where
  -- No address twice.
  abbrev pub Distinct : List (ℕ × SampleType) → Type 0
  Distinct [] = Unit
  Distinct ((p, a) ∷ m) = (is_some (find p m) ≡ false) × Distinct m

  find-emplace :
      (p q : ℕ) (a : SampleType) (m : List (ℕ × SampleType))
      → find q (emplace p a m)
        ≡ (if p == q then (if is_some (find p m) then find p m else some a) else find q m)
  unfolding emplace
  find-emplace p q a m = ground arith

  find-erase :
      (p q : ℕ) (m : List (ℕ × SampleType))
      → Distinct m
      → find q (erase p m) ≡ (if p == q then none else find q m)
  unfolding find erase
  find-erase p q [] d = ground arith
  find-erase p q ((r, a) ∷ m) d = ground (arith, find-erase p q m d.1)

  erase-Distinct : (p : ℕ) (m : List (ℕ × SampleType)) → Distinct m → Distinct (erase p m)
  unfolding find erase
  erase-Distinct p [] d = d
  erase-Distinct p ((r, a) ∷ m) d = ground (arith, erase-Distinct p m d.1, find-erase p r m d.1)

  erase-All {κ} :
      (P : ℕ × SampleType → Type κ) (p : ℕ) (m : List (ℕ × SampleType))
      → All P m
      → All P (erase p m)
  unfolding erase
  erase-All P p [] h = h
  erase-All P p ((r, a) ∷ m) h = ground (arith, erase-All P p m h.1)

  -- What `release` returns for what it finds.
  abbrev pub or_invalid : Option SampleType → Expected SampleRegistryError SampleType
  or_invalid none = err SampleRegistryError.invalid_payload
  or_invalid (some a) = ok a

module _ {ℓ} {SampleType : Type ℓ} (payload : SampleType → ℕ) where
  abbrev Keyed : List (ℕ × SampleType) → Type 0
  Keyed = All λ e. e.0 ≡ payload e.1

  find-Keyed :
      (p : ℕ) (m : List (ℕ × SampleType)) (a : SampleType)
      → Keyed m
      → find p m ≡ some a
      → payload a ≡ p
  unfolding find
  find-Keyed p [] a h e = absurd (cc)
  find-Keyed p ((r, b) ∷ m) a h e = ground (arith, find-Keyed p m a h.1)

  -- No address twice, and every sample under the address of its own payload.
  pub record IsValid (r : SampleRegistry SampleType) : Type 0 where
    pub distinct : Distinct r.samples
    pub keyed : Keyed r.samples

  pub empty-IsValid : IsValid empty
  empty-IsValid = record { distinct = tt; keyed = tt }

  pub store-IsValid :
      (a : SampleType) (r : SampleRegistry SampleType) → IsValid r → IsValid (store payload a r).1
  unfolding store
  store-IsValid a r v = ground arith

  release_found-IsValid :
      (p : ℕ) (o : Option SampleType) (r : SampleRegistry SampleType)
      → IsValid r
      → IsValid (release_found p o r).1
  unfolding release_found
  release_found-IsValid p none r v = v
  release_found-IsValid p (some a) r v = record {
    distinct = erase-Distinct p r.samples v.distinct;
    keyed = erase-All (λ e. e.0 ≡ payload e.1) p r.samples v.keyed;
  }

  pub release-IsValid :
      (p : ℕ) (r : SampleRegistry SampleType) → IsValid r → IsValid (release p r).1
  unfolding release
  release-IsValid p r v = release_found-IsValid p (find p r.samples) r v

  -- `store` adds the sample under its address, unless one is there: the first one then stays, and
  -- no other address changes.
  pub retrieve-store :
      (a : SampleType) (r : SampleRegistry SampleType) (q : ℕ)
      → retrieve q (store payload a r).1 ≡ (
          if payload a == q
          then (if is_some (retrieve q r) then retrieve q r else some a)
          else retrieve q r)
  unfolding retrieve store
  retrieve-store a r q = ground (arith, find-emplace (payload a) q a r.samples)

  -- `release` gives the sample under the address, or `invalid_payload` where there is none, and
  -- takes away that address and no other.
  pub retrieve-release :
      (p q : ℕ) (r : SampleRegistry SampleType)
      → IsValid r
      → ((release p r).0 ≡ or_invalid (retrieve p r))
        × (retrieve q (release p r).1 ≡ (if p == q then none else retrieve q r))
  unfolding retrieve release
  retrieve-release p q r v = ground (arith, find-erase p q r.samples v.distinct)

  -- A released sample is one whose payload is at the address asked for.
  pub release-payload :
      (p : ℕ) (r : SampleRegistry SampleType) (a : SampleType)
      → IsValid r
      → (release p r).0 ≡ ok a
      → payload a ≡ p
  unfolding release
  release-payload p r a v = ground (arith, find-Keyed p r.samples a v.keyed)

  -- A sample whose address is not in use comes back by its address, with the registry as it was.
  pub release-store :
      (a : SampleType) (r : SampleRegistry SampleType)
      → retrieve (payload a) r ≡ none
      → release (store payload a r).0 (store payload a r).1 ≡ (ok a, r)
  unfolding retrieve store release
  release-store a r h = ground (arith, eq_refl (payload a))
