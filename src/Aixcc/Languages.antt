-- ===== src/Aixcc/Languages.antt =====
-- The flags of competition-api/internal/identifier/language.go.
use mathlib.Core.List.{Mem, mem-cons_self, mem-cons_of_mem, append-nil, append_assoc}
use text.Mathlib.TextEquality.{eq_iff}
use competition_api.Prelude.{
  String, ◌≡◌, refl, sym, subst, Bool, true, false, ◌⊎◌, inl, inr, List, [], ◌∷◌, ◌++◌, Result, ok,
  err, str_eq, if◌then◌else◌,
}
use competition_api.WorkerErrors.{GoError, message}
use competition_api.Aixcc.Patches.{language_c, language_java}

abbrev pub unknown_language : GoError
unknown_language = message "must be one of \"java\" or \"c\""

-- `toLanguage`
unfoldable pub to_language : String → Result GoError String
to_language v =
    if str_eq v language_c
    then ok v
    else if str_eq v language_java
    then ok v
    else err unknown_language

abbrev pub appended : List String → Result GoError String → Result GoError (List String)
appended languages (ok language) = ok (languages ++ language ∷ [])
appended languages (err e) = err e

-- `Set` of a slice of languages: the slice after it, unless there is an error.
unfoldable pub set_slice : List String → String → Result GoError (List String)
unfolding to_language
set_slice languages v = appended languages (to_language v)

abbrev pub on_set :
    (List String → Result GoError (List String))
    → Result GoError (List String)
    → Result GoError (List String)
on_set rest (ok more) = rest more
on_set rest (err e) = err e

-- The values of a flag are set one after the other, as the command line gives them; an error ends it.
unfoldable pub set_all : List String → List String → Result GoError (List String)
unfolding set_slice
set_all languages [] = ok languages
set_all languages (v ∷ values) =
    let rest = λ (more : List String). set_all more values in on_set rest (set_slice languages v)

abbrev pub IsLanguage : String → Type 0
IsLanguage v = (v ≡ language_c) ⊎ (v ≡ language_java)

pub data AllLanguages : List String → Type 0 where
  no_more : AllLanguages []
  one_more :
      (v : String) (values : List String)
      → IsLanguage v
      → AllLanguages values
      → AllLanguages (v ∷ values)

-- What a flag has made of its values.
pub data AreTaken (languages values : List String) : Result GoError (List String) → Type 0 where
  taken : AllLanguages values → AreTaken languages values (ok (languages ++ values))
  not_taken :
      (v : String)
      → Mem v values
      → ¬ IsLanguage v
      → (e : GoError) → AreTaken languages values (err e)

neither :
    {v : String} → str_eq v language_c ≡ false → str_eq v language_java ≡ false → ¬ IsLanguage v
neither {v} p q (inl e) = cc (p, (eq_iff v language_c).1 e)
neither {v} p q (inr e) = cc (q, (eq_iff v language_java).1 e)

-- What `set_slice` has made of a value.
data SliceSet (languages : List String) (v : String) : Result GoError (List String) → Type 0 where
  added : IsLanguage v → SliceSet languages v (ok (languages ++ v ∷ []))
  refused : ¬ IsLanguage v → (e : GoError) → SliceSet languages v (err e)

set_slice-cases :
    (languages : List String) (v : String) → SliceSet languages v (set_slice languages v)
unfolding set_slice to_language
set_slice-cases languages v = decided (str_eq v language_c) (str_eq v language_java) refl refl
  where
    decided :
        (b c : Bool)
        → str_eq v language_c ≡ b
        → str_eq v language_java ≡ c
        → SliceSet languages v
            (appended languages (if b then ok v else if c then ok v else err unknown_language))
    decided true c p q = added (inl ((eq_iff v language_c).0 p))
    decided false true p q = added (inr ((eq_iff v language_java).0 q))
    decided false false p q = refused (neither p q) unknown_language

-- A flag that is set to some values, one after the other, ends with the languages that it had and the
-- values after them, all of which are c or java; or it is refused, and one of the values is neither.
pub set_all-AreTaken :
    (languages values : List String) → AreTaken languages values (set_all languages values)
unfolding set_all
set_all-AreTaken languages [] =
    subst (λ l. AreTaken languages [] (ok l)) (append-nil languages) (taken no_more)
set_all-AreTaken languages (v ∷ values) =
    let rest = λ (more : List String). set_all-AreTaken more values in
    next (set_slice languages v) (set_slice-cases languages v) rest
  where
    after :
        IsLanguage v
        → (r : Result GoError (List String)) → AreTaken (languages ++ v ∷ []) values r
        → AreTaken languages (v ∷ values) r
    after i _ (taken a) =
        subst (λ l. AreTaken languages (v ∷ values) (ok l))
          (sym (append_assoc languages (v ∷ []) values)) (taken (one_more v values i a))
    after i _ (not_taken u m n e) = not_taken u (mem-cons_of_mem v m) n e

    next :
        (r : Result GoError (List String))
        → SliceSet languages v r
        → ((more : List String) → AreTaken more values (set_all more values))
        → AreTaken languages (v ∷ values) (on_set (λ more. set_all more values) r)
    next _ (added i) rest = after i _ (rest (languages ++ v ∷ []))
    next _ (refused n e) rest = not_taken v mem-cons_self n e
