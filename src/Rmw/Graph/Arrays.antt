-- ===== src/Rmw/Graph/Arrays.antt =====
-- What rcutils documents, and how a call that fills arrays of texts can end.
use mathlib.Core.Option
use mathlib.Core.List.{append_assoc}
use rmw_iceoryx.Common.{
  Exec, Expected, List, Option, [], continue, err, length, none, ok, refl, replicate, some, suc, ℕ,
  ◌++◌, ◌>>=◌, ◌∷◌, ◌≡◌, Option-cases, ap, inl, inr, ◌∙◌, sym, Bool, false, guard, true, ◌≢◌,
}
use rmw_iceoryx.Rmw.Graph.{
  StringArray, RcutilsPort, undefined_behaviour, RetCode, set?, NamesAndTypes, Stop, copy_into, put,
  code, rcutils_get_zero_initialized_string_array, written, init_string_array, init_code,
}

-- The texts of an array; none for a null `data`.
abbrev pub elements : StringArray → List (Option (List ℕ))
elements a = Option.get_or a.texts []

-- An array that was initialized has its size and null for each text, and a copy is the text. A
-- structure that was initialized has an array of that size for the names, and that many arrays for
-- the types, all zero initialized.
pub record Documented (port : RcutilsPort) : Type 0 where
  pub initialized-elements :
      (a : StringArray) (n : ℕ) (w : port.World)
      → (port.string_array_init a n w).0 ≡ ok tt
      → elements (port.string_array_init a n w).1 ≡ replicate n none
  pub duplicate-eq : (t t' : List ℕ) (w : port.World) → (port.strdup t w).0 ≡ some t' → t' ≡ t
  pub names-elements :
      (a : NamesAndTypes) (n : ℕ) (w : port.World)
      → (port.names_and_types_init a n w).0 ≡ ok tt
      → elements (port.names_and_types_init a n w).1.names ≡ replicate n none
  pub types-zero :
      (a : NamesAndTypes) (n : ℕ) (w : port.World)
      → (port.names_and_types_init a n w).0 ≡ ok tt
      → (port.names_and_types_init a n w).1.types
        ≡ some (replicate n rcutils_get_zero_initialized_string_array)

-- The codes with which a call may fail when rcutils refuses to allocate.
pub record Refusals (port : RcutilsPort) (C : RetCode → Type 0) : Type 0 where
  pub of_duplicate :
      (t : List ℕ) (w : port.World) → (port.strdup t w).0 ≡ none → C RetCode.bad_alloc
  pub of_array :
      (a : StringArray) (n : ℕ) (w : port.World) (c : RetCode)
      → (port.string_array_init a n w).0 ≡ err c
      → C c × C RetCode.bad_alloc
  pub of_names :
      (a : NamesAndTypes) (n : ℕ) (w : port.World) (c : RetCode)
      → (port.names_and_types_init a n w).0 ≡ err c
      → C c

-- Nothing is refused.
abbrev pub NeverRefuses : RcutilsPort → Type 0
NeverRefuses port = Refusals port (λ c. ⊥)

pub any_code : (port : RcutilsPort) → Refusals port (λ c. Unit)
any_code port = record {
  of_duplicate = λ t w e. tt;
  of_array = λ a n w c e. (tt, tt);
  of_names = λ a n w c e. tt;
}

set?-append {ℓ} :
    {A : Type ℓ} (xs rest : List A) (x a : A)
    → set? (xs ++ x ∷ rest) (length xs) a ≡ some (xs ++ a ∷ rest)
set?-append [] rest x a = refl
set?-append (y ∷ xs) rest x a = rw (set?-append xs rest x a)

not_nil {ℓ} : {A : Type ℓ} (xs ys : List A) (x : A) → [] ≡ xs ++ x ∷ ys → ⊥
not_nil [] ys x e = cc
not_nil (y ∷ xs) ys x e = cc

-- A call that ends well ends in `Q`; a failure has a code that `C` allows, and nothing is undefined.
module _ (C : RetCode → Type 0) {S : Type 0} where
  abbrev pub Ends : (S → Type 0) → Expected Stop (Unit {0}) × S → Type 0
  Ends Q (ok u, s) = Q s
  Ends Q (err (code c), s) = C c
  Ends Q (err undefined_behaviour, s) = ⊥

  continued-Ends :
      (Q R : S → Type 0) (r : Expected Stop (Unit {0}) × S) (f : Unit {0} → Exec S Stop (Unit {0}))
      → Ends Q r
      → ((s : S) → Q s → Ends R (f tt s))
      → Ends R (continue r f)
  continued-Ends Q R (ok u, s) f first rest = rest s first
  continued-Ends Q R (err (code c), s) f first rest = first
  continued-Ends Q R (err undefined_behaviour, s) f first rest = absurd first

  pub then-Ends :
      (Q R : S → Type 0) (m : Exec S Stop (Unit {0})) (f : Unit {0} → Exec S Stop (Unit {0}))
      (s : S)
      → Ends Q (m s)
      → ((s : S) → Q s → Ends R (f tt s))
      → Ends R ((m >>= f) s)
  then-Ends Q R m f s = continued-Ends Q R (m s) f

  pub Ends-imp :
      (Q R : S → Type 0) (r : Expected Stop (Unit {0}) × S)
      → ((s : S) → Q s → R s)
      → Ends Q r
      → Ends R r
  Ends-imp Q R (ok u, s) f h = f s h
  Ends-imp Q R (err (code c), s) f h = h
  Ends-imp Q R (err undefined_behaviour, s) f h = h

  pub Ends-ok : (Q : S → Type 0) (r : Expected Stop (Unit {0}) × S) → Ends Q r → r.0 ≡ ok tt → Q r.1
  Ends-ok Q (ok u, s) h e = h
  Ends-ok Q (err c, s) h e = absurd (cc)

  pub Ends-defined :
      (Q : S → Type 0) (r : Expected Stop (Unit {0}) × S) → Ends Q r → r.0 ≢ err undefined_behaviour
  Ends-defined Q (ok u, s) h e = cc
  Ends-defined Q (err (code c), s) h e = cc
  Ends-defined Q (err undefined_behaviour, s) h e = h

  -- After a guard whose code is allowed.
  pub guarded-Ends :
      (Q : S → Type 0) (b : Bool) (c : RetCode) (f : Unit {0} → Exec S Stop (Unit {0})) (s : S)
      → (b ≡ false → C c)
      → (b ≡ true → Ends Q (f tt s))
      → Ends Q (continue (guard b (code c) s) f)
  guarded-Ends Q true c f s refused rest = rest refl
  guarded-Ends Q false c f s refused rest = refused refl

-- Where no code is allowed, the call returns.
pub Ends-returns :
    {S : Type 0} (Q : S → Type 0) (r : Expected Stop (Unit {0}) × S)
    → Ends (λ c. ⊥) Q r
    → r.0 ≡ ok tt
Ends-returns Q (ok u, s) h = refl
Ends-returns Q (err (code c), s) h = absurd h
Ends-returns Q (err undefined_behaviour, s) h = absurd h

module _ {port : RcutilsPort} (d : Documented port) (C : RetCode → Type 0) where
  open port use {World}

  -- An array whose first texts are `done`, with `k` more to come.
  abbrev pub HasDone : List (Option (List ℕ)) → ℕ → StringArray × World → Type 0
  HasDone done k (a, w) = elements a ≡ done ++ replicate k none

  put-HasDone :
      (done : List (Option (List ℕ))) (k : ℕ) (c : Option (List ℕ)) (a : StringArray)
      → elements a ≡ done ++ replicate (suc k) none
      → (a' : StringArray) × (put (length done) c a ≡ some a')
        × (elements a' ≡ done ++ c ∷ replicate k none)
  put-HasDone done k c a e = elim (Option-cases a.texts) [
    | inl null ↦ absurd (not_nil done _ _ (sym (ap (λ o. Option.get_or o []) null) ∙ e))
    | inr (texts, given) ↦
        let same : texts ≡ done ++ none ∷ replicate k none =
          sym (ap (λ o. Option.get_or o []) given) ∙ e in
        (
          record a { texts = some (done ++ c ∷ replicate k none) },
          rw given (rw same (rw (set?-append done (replicate k none) none c))),
          refl,
        )
  ]

  written-Ends :
      (done : List (Option (List ℕ))) (k : ℕ) (t : List ℕ) (copy : Option (List ℕ))
      (a a' : StringArray) (w : World)
      → ((t' : List ℕ) → copy ≡ some t' → t' ≡ t)
      → (copy ≡ none → C RetCode.bad_alloc)
      → elements a' ≡ done ++ copy ∷ replicate k none
      → Ends C (HasDone (done ++ some t ∷ []) k) (written port copy (some a') (a, w))
  written-Ends done k t none a a' w same refused e = refused refl
  written-Ends done k t (some t') a a' w same refused e =
      e
      ∙ ap (λ t. done ++ some t ∷ replicate k none) (same t' refl)
      ∙ sym (append_assoc done (some t ∷ []) (replicate k none))

  pub copy_into-Ends :
      (done : List (Option (List ℕ))) (k : ℕ) (t : List ℕ) (s : StringArray × World)
      → Refusals port C
      → HasDone done (suc k) s
      → Ends C (HasDone (done ++ some t ∷ []) k) (copy_into port (length done) t s)
  unfolding copy_into
  copy_into-Ends done k t (a, w) refused e =
      let (a', there, has) = put-HasDone done k (port.strdup t w).0 a e in
      rw there (
        written-Ends done k t (port.strdup t w).0 a a' (port.strdup t w).1
          (λ t'. d.duplicate-eq t t' w) (refused.of_duplicate t w) has)

  -- An array that was initialized waits for all its texts.
  pub init_string_array-Ends :
      (n : ℕ) (s : StringArray × World)
      → Refusals port C
      → Ends C (HasDone [] n) (init_string_array port n s)
  unfolding init_string_array
  init_string_array-Ends n (a, w) refused = split (port.string_array_init a n w) refl
    where
      split :
          (r : Expected RetCode (Unit {0}) × StringArray × World)
          → port.string_array_init a n w ≡ r
          → Ends C (HasDone [] n) (init_code port r.0, (r.1, r.2))
      split (ok u, a', w') e =
          sym (ap (λ r. elements r.1) e) ∙ d.initialized-elements a n w (ap (λ r. r.0) e)
      split (err c, a', w') e = (refused.of_array a n w c (ap (λ r. r.0) e)).0
