-- ===== src/Tests/Languages.antt =====
-- The flag for the languages that a patch may change.
use competition_api.Prelude.{◌≡◌, refl, [], ◌∷◌, ok, err}
use competition_api.Aixcc.Languages.{
  unknown_language, to_language, set_slice, set_all, AreTaken, set_all-AreTaken,
}

both : set_all [] ("c" ∷ "java" ∷ []) ≡ ok ("c" ∷ "java" ∷ [])
unfolding set_all set_slice to_language
both = refl

unknown : set_all [] ("c" ∷ "go" ∷ []) ≡ err unknown_language
unfolding set_all set_slice to_language
unknown = refl

set_all-AreTaken_example : AreTaken [] ("c" ∷ "java" ∷ []) (set_all [] ("c" ∷ "java" ∷ []))
set_all-AreTaken_example = set_all-AreTaken [] ("c" ∷ "java" ∷ [])
