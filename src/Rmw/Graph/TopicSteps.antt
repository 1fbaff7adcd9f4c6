-- ===== src/Rmw/Graph/TopicSteps.antt =====
-- The steps of rmw_get_topic_names_and_types that write the names and the types of topics.
use mathlib.Core.Path.{subst₂}
use mathlib.Core.List.{append_assoc, append-nil}
use rmw_iceoryx.Rmw.Graph.Nodes.{copies}
use rmw_iceoryx.Common.{
  Exec, Expected, List, Option, err, ok, refl, some, ◌∷◌, ◌≡◌, [], arith, length, length-append,
  none, replicate, subst, suc, ℕ, ◌++◌,
}
use rmw_iceoryx.Rmw.Graph.{
  undefined_behaviour, code, RcutilsPort, Stop, StringArray, RetCode, copy_into, TopicDetails,
  rcutils_get_zero_initialized_string_array,
}
use rmw_iceoryx.Rmw.Graph.TopicNames.{
  TopicNames, on_topic_names, on_types, fill_topic_names, unknown,
}
use rmw_iceoryx.Rmw.Graph.Arrays.{
  Ends, Documented, Refusals, elements, Ends-imp, HasDone, copy_into-Ends, then-Ends,
}

-- The first array of types, and those that follow it.
abbrev pub TypesAre :
    {port : RcutilsPort} → (StringArray → Type 0) → List StringArray → TopicNames port → Type 0
TypesAre Q others s = (a : StringArray) × (s.names_and_types.types ≡ some (a ∷ others)) × Q a

-- The arrays of types after the first.
abbrev pub others_of : List TopicDetails → List StringArray
others_of [] = []
others_of (t ∷ ts) = replicate (length ts) rcutils_get_zero_initialized_string_array

-- A name for each topic; all types stand in the first array, the others are as initialized.
abbrev pub ReportsTopics : {port : RcutilsPort} → List TopicDetails → TopicNames port → Type 0
ReportsTopics ts s =
    (elements s.names_and_types.names ≡ copies (λ t. t.name) ts)
    × TypesAre (λ a. elements a ≡ copies (λ t. unknown) ts) (others_of ts) s

module _ {port : RcutilsPort} (d : Documented port) (C : RetCode → Type 0) where
  open port use {World}

  on_topic_names-Ends :
      (P : StringArray × World → Type 0) (Q : Option (List StringArray) → Type 0)
      (m : Exec (StringArray × World) Stop (Unit {0})) (s : TopicNames port)
      → Q s.names_and_types.types
      → Ends C P (m (s.names_and_types.names, s.world))
      → Ends C {S = TopicNames port}
          (λ s'. P (s'.names_and_types.names, s'.world) × Q s'.names_and_types.types)
          (on_topic_names port m s)
  on_topic_names-Ends P Q m s q = split (m (s.names_and_types.names, s.world))
    where
      split :
          (r : Expected Stop (Unit {0}) × (StringArray × World))
          → Ends C P r
          → Ends C {S = TopicNames port}
              (λ s'. P (s'.names_and_types.names, s'.world) × Q s'.names_and_types.types)
              (
                r.0,
                record {
                  names_and_types = record (s.names_and_types) { names = r.1.0 };
                  world = r.1.1;
                },
              )
      split (ok u, (a, w)) h = (h, q)
      split (err (code c), (a, w)) h = h
      split (err undefined_behaviour, (a, w)) h = h

  pub on_types-Ends :
      (P : StringArray × World → Type 0) (Q : StringArray → Type 0)
      (m : Exec (StringArray × World) Stop (Unit {0})) (a : StringArray) (others : List StringArray)
      (s : TopicNames port)
      → s.names_and_types.types ≡ some (a ∷ others)
      → Q s.names_and_types.names
      → Ends C P (m (a, s.world))
      → Ends C {S = TopicNames port}
          (λ s'.
            Q s'.names_and_types.names × TypesAre {port = port} (λ a. P (a, s'.world)) others s')
          (on_types port m s)
  on_types-Ends P Q m a others s e q h = rw e (split (m (a, s.world)) h)
    where
      split :
          (r : Expected Stop (Unit {0}) × (StringArray × World))
          → Ends C P r
          → Ends C {S = TopicNames port}
              (λ s'.
                Q s'.names_and_types.names
                × TypesAre {port = port} (λ a. P (a, s'.world)) others s')
              (
                r.0,
                record {
                  names_and_types = record (s.names_and_types) { types = some (r.1.0 ∷ others) };
                  world = r.1.1;
                },
              )
      split (ok u, (b, w)) h = (q, (b, refl, h))
      split (err (code c), (b, w)) h = h
      split (err undefined_behaviour, (b, w)) h = h

  -- The first texts are written, null for those to come.
  abbrev pub Filled :
      List StringArray
      → List (Option (List ℕ))
      → List (Option (List ℕ))
      → ℕ
      → ℕ
      → TopicNames port
      → Type 0
  Filled others names types j k s =
      (elements s.names_and_types.names ≡ names ++ replicate j none)
      × TypesAre (λ a. elements a ≡ types ++ replicate k none) others s

  module _ (refused : Refusals port C) (others : List StringArray) where
    name_copied :
        (names types : List (Option (List ℕ))) (i j k : ℕ) (t : List ℕ) (s : TopicNames port)
        → length names ≡ i
        → Filled others names types (suc j) k s
        → Ends C
            (Filled others (names ++ some t ∷ []) types j k)
            (on_topic_names port (copy_into port i t) s)
    name_copied names types i j k t s e (h, (a, given, ha)) =
        Ends-imp C
          (λ s'.
            HasDone d C (names ++ some t ∷ []) j (s'.names_and_types.names, s'.world)
            × (s'.names_and_types.types ≡ some (a ∷ others)))
          (Filled others (names ++ some t ∷ []) types j k)
          (on_topic_names port (copy_into port i t) s) (λ s (hn, ht). (hn, (a, ht, ha)))
          (on_topic_names-Ends (HasDone d C (names ++ some t ∷ []) j)
            (λ types. types ≡ some (a ∷ others)) (copy_into port i t) s given
            (subst
              (λ i.
                Ends C (HasDone d C (names ++ some t ∷ []) j)
                  (copy_into port i t (s.names_and_types.names, s.world)))
              e (copy_into-Ends d C names j t (s.names_and_types.names, s.world) refused h)))

    type_copied :
        (names types : List (Option (List ℕ))) (i j k : ℕ) (t : List ℕ) (s : TopicNames port)
        → length types ≡ i
        → Filled others names types j (suc k) s
        → Ends C
            (Filled others names (types ++ some t ∷ []) j k)
            (on_types port (copy_into port i t) s)
    type_copied names types i j k t s e (h, (a, given, ha)) =
        on_types-Ends (HasDone d C (types ++ some t ∷ []) k)
          (λ b. elements b ≡ names ++ replicate j none) (copy_into port i t) a others s given h
          (subst
            (λ i. Ends C (HasDone d C (types ++ some t ∷ []) k) (copy_into port i t (a, s.world))) e
            (copy_into-Ends d C types k t (a, s.world) refused ha))

    pub fill_topic_names-Ends :
        (names types : List (Option (List ℕ))) (i : ℕ) (ts : List TopicDetails)
        (s : TopicNames port)
        → length names ≡ i
        → length types ≡ i
        → Filled others names types (length ts) (length ts) s
        → Ends C
            (Filled others
              (names ++ copies (λ t. t.name) ts)
              (types ++ copies (λ t. unknown) ts)
              0
              0)
            (fill_topic_names port i ts s)
    unfolding fill_topic_names
    fill_topic_names-Ends names types i [] s e f (hn, (a, given, ha)) =
        (rw (append-nil names) hn, (a, given, rw (append-nil types) ha))
    fill_topic_names-Ends names types i (t ∷ ts) s e f h =
        then-Ends C (Filled others (names ++ some t.name ∷ []) types (length ts) (suc (length ts)))
          _ (on_topic_names port (copy_into port i t.name)) _ s
          (name_copied names types i (length ts) (suc (length ts)) t.name s e h)
          λ s h.
            then-Ends C
              (Filled others (names ++ some t.name ∷ []) (types ++ some unknown ∷ []) (length ts)
                (length ts))
              _ (on_types port (copy_into port i unknown)) _ s
              (type_copied (names ++ some t.name ∷ []) types i (length ts) (length ts) unknown s f
                h)
              λ s h.
                subst₂
                  (λ names types.
                    Ends C (Filled others names types 0 0) (fill_topic_names port (suc i) ts s))
                  (append_assoc names (some t.name ∷ []) (copies (λ t. t.name) ts))
                  (append_assoc types (some unknown ∷ []) (copies (λ t. unknown) ts))
                  (fill_topic_names-Ends (names ++ some t.name ∷ []) (types ++ some unknown ∷ [])
                    (suc i) ts s (omega (arith, e, length-append names (some t.name ∷ [])))
                    (omega (arith, f, length-append types (some unknown ∷ []))) h)
