-- ===== src/Rmw/Graph/Topics.antt =====
-- What rmw_get_topic_names_and_types writes for the topics that it collected.
use rmw_iceoryx.Rmw.Graph.TopicSteps.{
  Filled, on_types-Ends, fill_topic_names-Ends, others_of, ReportsTopics,
}
use mathlib.Core.Path.{sym}
use mathlib.Core.List.{append-nil}
use rmw_iceoryx.Rmw.Graph.Nodes.{copies}
use rmw_iceoryx.Common.{
  Exec, Expected, List, err, ok, refl, some, ◌∷◌, ◌≡◌, [], arith, length, none, replicate, subst,
  suc, ℕ, ap, report, ◌>>◌, ◌∙◌, continue, ◌≢◌,
}
use rmw_iceoryx.Rmw.Graph.{
  undefined_behaviour, code, RcutilsPort, Stop, StringArray, RetCode, TopicDetails,
  rcutils_get_zero_initialized_string_array, NamesAndTypes, init_string_array, init_code,
}
use rmw_iceoryx.Rmw.Graph.TopicNames.{
  report_topics, TopicNames, on_types, fill_topic_names, unknown, init_names_and_types, init_types,
  bad_alloc_of, on_array,
}
use rmw_iceoryx.Rmw.Graph.Arrays.{
  Ends, Documented, Refusals, elements, Ends-imp, HasDone, then-Ends,
}

module _ {port : RcutilsPort} (d : Documented port) (C : RetCode → Type 0) where
  open port use {World}

  names_init-Ends :
      (n : ℕ) (s : TopicNames port)
      → Refusals port C
      → Ends C {S = TopicNames port}
          (λ s.
            (elements s.names_and_types.names ≡ replicate n none)
            × (s.names_and_types.types
                ≡ some (replicate n rcutils_get_zero_initialized_string_array)))
          (init_names_and_types port n s)
  names_init-Ends n s refused = split (port.names_and_types_init s.names_and_types n s.world) refl
    where
      split :
          (r : Expected RetCode (Unit {0}) × NamesAndTypes × World)
          → port.names_and_types_init s.names_and_types n s.world ≡ r
          → Ends C {S = TopicNames port}
              (λ s.
                (elements s.names_and_types.names ≡ replicate n none)
                × (s.names_and_types.types
                    ≡ some (replicate n rcutils_get_zero_initialized_string_array)))
              (init_code port r.0, record { names_and_types = r.1; world = r.2 })
      split (ok u, a, w) e =
          let done : (port.names_and_types_init s.names_and_types n s.world).0 ≡ ok tt =
            ap (λ r. r.0) e in
          (
            sym (ap (λ r. elements r.1.names) e)
                ∙ d.names-elements s.names_and_types n s.world done,
            sym (ap (λ r. r.1.types) e) ∙ d.types-zero s.names_and_types n s.world done,
          )
      split (err c, a, w) e = refused.of_names s.names_and_types n s.world c (ap (λ r. r.0) e)

  -- Whatever the code of rcutils, RMW_RET_BAD_ALLOC is reported.
  bad_alloc-Ends :
      (n : ℕ) (s : StringArray × World)
      → Refusals port C
      → Ends C (HasDone d C [] n) (bad_alloc_of port (init_string_array port n) s)
  unfolding init_string_array
  bad_alloc-Ends n (a, w) refused = split (port.string_array_init a n w) refl
    where
      split :
          (r : Expected RetCode (Unit {0}) × StringArray × World)
          → port.string_array_init a n w ≡ r
          → Ends C
              (HasDone d C [] n)
              (report (code RetCode.bad_alloc) (init_code port r.0, (r.1, r.2)))
      split (ok u, a', w') e =
          sym (ap (λ r. elements r.1) e) ∙ d.initialized-elements a n w (ap (λ r. r.0) e)
      split (err c, a', w') e = (refused.of_array a n w c (ap (λ r. r.0) e)).1

  pub report_topics-Ends :
      (t : TopicDetails) (ts : List TopicDetails) (s : TopicNames port)
      → Refusals port C
      → Ends C (ReportsTopics (t ∷ ts)) (report_topics port (t ∷ ts) s)
  report_topics-Ends t ts s refused =
      let n : ℕ = suc (length ts) in
      let others : List StringArray = others_of (t ∷ ts) in
      let init : Exec (StringArray × World) Stop (Unit {0}) =
        bad_alloc_of port (init_string_array port n) in
      let zero_array : StringArray = rcutils_get_zero_initialized_string_array in
      then-Ends C
        (λ s.
          (elements s.names_and_types.names ≡ replicate n none)
          × (s.names_and_types.types ≡ some (zero_array ∷ others)))
        _ (init_names_and_types port n) _ s (names_init-Ends n s refused)
        λ s h.
          then-Ends C (Filled d C others [] [] n n) _ (init_types port n) _ s
            (subst
              (λ o. Ends C (Filled d C others [] [] n n) (on_array port (on_types port init) o s))
              (sym h.1)
              (on_types-Ends d C (HasDone d C [] n) (λ a. elements a ≡ replicate n none) init
                zero_array others s h.1 h.0 (bad_alloc-Ends n (zero_array, s.world) refused)))
            λ s h.
              Ends-imp C
                (Filled d C others (copies (λ t. t.name) (t ∷ ts)) (copies (λ t. unknown) (t ∷ ts))
                  0 0)
                (ReportsTopics (t ∷ ts)) (fill_topic_names port 0 (t ∷ ts) s)
                (λ s (hn, (a, given, ha)). (
                  rw (append-nil (copies (λ t. t.name) (t ∷ ts))) at hn,
                  (a, given, rw (append-nil (copies (λ t. unknown) (t ∷ ts))) at ha),
                ))
                (fill_topic_names-Ends d C refused others [] [] 0 (t ∷ ts) s refl refl h)

-- Without a topic there is no first array of types to initialize.
pub report_no_topics :
    {port : RcutilsPort} (d : Documented port) (s : TopicNames port)
    → (port.names_and_types_init s.names_and_types 0 s.world).0 ≡ ok tt
    → (report_topics port [] s).0 ≡ err undefined_behaviour
report_no_topics {port} d s given =
    split (port.names_and_types_init s.names_and_types 0 s.world) refl
  where
    split :
        (r : Expected RetCode (Unit {0}) × NamesAndTypes × port.World)
        → port.names_and_types_init s.names_and_types 0 s.world ≡ r
        → (continue
            (init_code port r.0, record { names_and_types = r.1; world = r.2 })
            (λ _. init_types port 0 >> fill_topic_names port 0 [])).0
          ≡ err undefined_behaviour
    split (ok u, a, w) e =
        let no_types : a.types ≡ some [] =
          sym (ap (λ r. r.1.types) e) ∙ d.types-zero s.names_and_types 0 s.world given in
        rw no_types refl
    split (err c, a, w) e = absurd (ground (arith, given, ap (λ r. r.0) e))

-- Nor can the call succeed.
pub report_no_topics_fails :
    {port : RcutilsPort} (d : Documented port) (s : TopicNames port)
    → (report_topics port [] s).0 ≢ ok tt
report_no_topics_fails {port} d s e =
    split (port.names_and_types_init s.names_and_types 0 s.world).0 refl
  where
    split :
        (r : Expected RetCode (Unit {0}))
        → (port.names_and_types_init s.names_and_types 0 s.world).0 ≡ r
        → ⊥
    split (ok u) given = ground (arith, e, report_no_topics d s given)
    split (err c) given = ground (arith, e, given)
