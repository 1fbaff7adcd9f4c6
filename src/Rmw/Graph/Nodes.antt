-- ===== src/Rmw/Graph/Nodes.antt =====
-- What rmw_get_node_names reports.
use rmw_iceoryx.Rmw.Graph.Arrays.{
  Documented, Ends, elements, then-Ends, HasDone, copy_into-Ends, init_string_array-Ends, Ends-imp,
  Refusals,
}
use rmw_iceoryx.Common.{
  Exec, Expected, Option, [], err, length, map, none, ok, replicate, some, suc, ℕ, ◌++◌, ◌∷◌, ◌≡◌,
  List, arith, length-append, subst, ◌>>◌, refl,
}
use mathlib.Core.Path.{subst₂}
use mathlib.Core.List.{append_assoc, append-nil}
use rmw_iceoryx.Names.{NodeName}
use rmw_iceoryx.Rmw.Graph.{
  undefined_behaviour, RcutilsPort, RetCode, NodeNames, StringArray, fill_node_names, Stop,
  on_names, on_namespaces, code, copy_into, init_string_array,
}

abbrev pub copies : {A : Type 0} → (A → List ℕ) → List A → List (Option (List ℕ))
copies f = map (λ a. some (f a))

abbrev pub names_of : List NodeName → List (Option (List ℕ))
names_of = copies (λ n. n.name)

abbrev pub namespaces_of : List NodeName → List (Option (List ℕ))
namespaces_of = copies (λ n. n.namespace)

-- A name and a namespace for each node, at the same index.
abbrev pub Reports : {port : RcutilsPort} → List NodeName → NodeNames port → Type 0
Reports ns s =
    (elements s.node_names ≡ names_of ns) × (elements s.node_namespaces ≡ namespaces_of ns)

module _ {port : RcutilsPort} (d : Documented port) (C : RetCode → Type 0) where
  open port use {World}

  -- The first texts are written, null for those to come.
  abbrev Filled : List (Option (List ℕ)) → List (Option (List ℕ)) → ℕ → ℕ → NodeNames port → Type 0
  Filled names namespaces j k s =
      (elements s.node_names ≡ names ++ replicate j none)
      × (elements s.node_namespaces ≡ namespaces ++ replicate k none)

  on_names-Ends :
      (P : StringArray × World → Type 0) (Q : StringArray → Type 0)
      (m : Exec (StringArray × World) Stop (Unit {0})) (s : NodeNames port)
      → Q s.node_namespaces
      → Ends C P (m (s.node_names, s.world))
      → Ends C (λ s'. P (s'.node_names, s'.world) × Q s'.node_namespaces) (on_names port m s)
  on_names-Ends P Q m s q = split (m (s.node_names, s.world))
    where
      split :
          (r : Expected Stop (Unit {0}) × (StringArray × World))
          → Ends C P r
          → Ends C
              (λ s'. P (s'.node_names, s'.world) × Q s'.node_namespaces)
              (r.0, record s { node_names = r.1.0; world = r.1.1 })
      split (ok u, (a, w)) h = (h, q)
      split (err (code c), (a, w)) h = h
      split (err undefined_behaviour, (a, w)) h = h

  on_namespaces-Ends :
      (P : StringArray × World → Type 0) (Q : StringArray → Type 0)
      (m : Exec (StringArray × World) Stop (Unit {0})) (s : NodeNames port)
      → Q s.node_names
      → Ends C P (m (s.node_namespaces, s.world))
      → Ends C (λ s'. Q s'.node_names × P (s'.node_namespaces, s'.world)) (on_namespaces port m s)
  on_namespaces-Ends P Q m s q = split (m (s.node_namespaces, s.world))
    where
      split :
          (r : Expected Stop (Unit {0}) × (StringArray × World))
          → Ends C P r
          → Ends C
              (λ s'. Q s'.node_names × P (s'.node_namespaces, s'.world))
              (r.0, record s { node_namespaces = r.1.0; world = r.1.1 })
      split (ok u, (a, w)) h = (q, h)
      split (err (code c), (a, w)) h = h
      split (err undefined_behaviour, (a, w)) h = h

  module _ (refused : Refusals port C) where
    name_copied :
        (names namespaces : List (Option (List ℕ))) (i j k : ℕ) (t : List ℕ) (s : NodeNames port)
        → length names ≡ i
        → Filled names namespaces (suc j) k s
        → Ends C
            (Filled (names ++ some t ∷ []) namespaces j k)
            (on_names port (copy_into port i t) s)
    name_copied names namespaces i j k t s e h =
        on_names-Ends (HasDone d C (names ++ some t ∷ []) j)
          (λ a. elements a ≡ namespaces ++ replicate k none) (copy_into port i t) s h.1
          (subst
            (λ i.
              Ends C (HasDone d C (names ++ some t ∷ []) j)
                (copy_into port i t (s.node_names, s.world)))
            e (copy_into-Ends d C names j t _ refused h.0))

    namespace_copied :
        (names namespaces : List (Option (List ℕ))) (i j k : ℕ) (t : List ℕ) (s : NodeNames port)
        → length namespaces ≡ i
        → Filled names namespaces j (suc k) s
        → Ends C
            (Filled names (namespaces ++ some t ∷ []) j k)
            (on_namespaces port (copy_into port i t) s)
    namespace_copied names namespaces i j k t s e h =
        on_namespaces-Ends (HasDone d C (namespaces ++ some t ∷ []) k)
          (λ a. elements a ≡ names ++ replicate j none) (copy_into port i t) s h.0
          (subst
            (λ i.
              Ends C (HasDone d C (namespaces ++ some t ∷ []) k)
                (copy_into port i t (s.node_namespaces, s.world)))
            e (copy_into-Ends d C namespaces k t _ refused h.1))

    fill_node_names-Ends :
        (names namespaces : List (Option (List ℕ))) (i : ℕ) (ns : List NodeName)
        (s : NodeNames port)
        → length names ≡ i
        → length namespaces ≡ i
        → Filled names namespaces (length ns) (length ns) s
        → Ends C
            (Filled (names ++ names_of ns) (namespaces ++ namespaces_of ns) 0 0)
            (fill_node_names port i ns s)
    unfolding fill_node_names
    fill_node_names-Ends names namespaces i [] s e f h =
        (rw (append-nil names) h.0, rw (append-nil namespaces) h.1)
    fill_node_names-Ends names namespaces i (n ∷ ns) s e f h =
        then-Ends C (Filled (names ++ some n.name ∷ []) namespaces (length ns) (suc (length ns))) _
          (on_names port (copy_into port i n.name)) _ s
          (name_copied names namespaces i (length ns) (suc (length ns)) n.name s e h)
          λ s h.
            then-Ends C
              (Filled (names ++ some n.name ∷ []) (namespaces ++ some n.namespace ∷ []) (length ns)
                (length ns))
              _ (on_namespaces port (copy_into port i n.namespace)) _ s
              (namespace_copied _ namespaces i (length ns) (length ns) n.namespace s f h)
              λ s h.
                subst₂
                  (λ names namespaces.
                    Ends C (Filled names namespaces 0 0) (fill_node_names port (suc i) ns s))
                  (append_assoc names (some n.name ∷ []) (names_of ns))
                  (append_assoc namespaces (some n.namespace ∷ []) (namespaces_of ns))
                  (fill_node_names-Ends (names ++ some n.name ∷ [])
                    (namespaces ++ some n.namespace ∷ []) (suc i) ns s
                    (omega (arith, e, length-append names (some n.name ∷ [])))
                    (omega (arith, f, length-append namespaces (some n.namespace ∷ []))) h)

    -- Arrays of the right size, with a node's name and its namespace at each index.
    pub init_and_fill-Ends :
        (ns : List NodeName) (s : NodeNames port)
        → Ends C (Reports ns) (
            (do
              on_names port (init_string_array port (length ns))
              on_namespaces port (init_string_array port (length ns))
              fill_node_names port 0 ns)
              s)
    init_and_fill-Ends ns s =
        let n : ℕ = length ns in
        let init : Exec (StringArray × World) Stop (Unit {0}) = init_string_array port n in
        then-Ends C (λ s. HasDone d C [] n (s.node_names, s.world) × Unit {0}) _
          (on_names port init) _ s
          (on_names-Ends (HasDone d C [] n) (λ a. Unit {0}) init s tt
            (init_string_array-Ends d C n (s.node_names, s.world) refused))
          λ s h.
            then-Ends C (Filled [] [] n n) _ (on_namespaces port init) _ s
              (on_namespaces-Ends (HasDone d C [] n) (λ a. elements a ≡ replicate n none) init s h.0
                (init_string_array-Ends d C n (s.node_namespaces, s.world) refused))
              λ s h.
                Ends-imp C (Filled (names_of ns) (namespaces_of ns) 0 0) (Reports ns)
                  (fill_node_names port 0 ns s)
                  (λ s h. (
                    rw (append-nil (names_of ns)) at h.0,
                    rw (append-nil (namespaces_of ns)) at h.1,
                  ))
                  (fill_node_names-Ends [] [] 0 ns s refl refl h)
