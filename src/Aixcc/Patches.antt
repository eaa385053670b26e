-- ===== src/Aixcc/Patches.antt =====
-- `ApplyPatch`, `parsePatch`, `removePatchPrefix` and `checkFile` of
-- competition-api/cmd/worker/internal/engine/aixcc.go, and competition-api/internal/identifier.
pub mod Allowed
use competition_api.Prelude.{
  String, Bool, true, false, not, ◌&&◌, ◌||◌, Option, none, some, List, [], ◌∷◌, map, is_empty,
  Result, ok, err, Exec, pure, raise, check, try, or_return, ◌>>=◌, ◌>>◌, str_eq, if◌then◌else◌,
}
use competition_api.WorkerErrors.{GoError, message, status_error_wrap}
use competition_api.Types.Status.{failed}
use competition_api.Types.ExitCode.{has_code}
use competition_api.GoStrings.{has_prefix, has_suffix, trim_prefix, trim_space}
use competition_api.Engine.{Params}
use competition_api.Aixcc.{AixccEngine, DiffFile, CommandResult}
use competition_api.Aixcc.Files.{is_blank, contains_name, submission_failed}

abbrev pub language_c : String
language_c = "c"

abbrev pub language_java : String
language_java = "java"

abbrev pub language_invalid : String
language_invalid = ""

-- The map `languageMapping`; a missing key gives the zero value.
abbrev pub language_mapping : String → String
language_mapping name =
    if str_eq name "C"
    then language_c
    else if str_eq name "C++"
    then language_c
    else if str_eq name "Java"
    then language_java
    else language_invalid

-- The loop over the guesses of go-enry: the first that maps to a language.
unfoldable pub first_language : List String → String
first_language [] = language_invalid
first_language (candidate ∷ rest) =
    let later = first_language rest in
    if str_eq (language_mapping candidate) language_invalid
    then later
    else language_mapping candidate

-- `GetLanguage`
unfoldable pub get_language : (String → String → List String) → String → String → String
unfolding first_language
get_language guess_languages filename content =
    if has_suffix filename ".c"
      || has_suffix filename ".h"
      || has_suffix filename ".c.in"
      || has_suffix filename ".h.in"
    then language_c
    else if has_suffix filename ".java"
    then language_java
    else first_language (guess_languages filename content)

unfoldable pub remove_patch_prefix : String → String
remove_patch_prefix input =
    if has_prefix input "a/"
    then trim_prefix input "a/"
    else if has_prefix input "b/"
    then trim_prefix input "b/"
    else input

abbrev pub trim_names : DiffFile → DiffFile
trim_names file = record file {
  new_name = trim_space file.new_name;
  old_name = trim_space file.old_name;
}

-- "file modifies forbidden language"
abbrev pub forbidden_language : GoError
forbidden_language = submission_failed (message "file modifies forbidden language")

module _ {W : Type 0} (c : AixccEngine W) where
  unfoldable pub parse_patch : String → Exec W GoError (List DiffFile)
  parse_patch patch_path = do
    patch_file ← c.open_file patch_path
    files ← c.parse_diff patch_file
    pure (map trim_names files)

  -- An error of `os.ReadFile` in `checkFile`.
  abbrev pub read_failed : GoError → GoError
  read_failed e = if c.is_not_exist e then submission_failed e else e

  abbrev pub judge_file : Params → String → Result GoError String → Exec W GoError Bool
  judge_file params path (ok content) =
      pure (contains_name params.allowed_languages (get_language c.guess_languages path content))
  judge_file params path (err e) = raise (read_failed e)

  unfoldable pub check_file : String → Params → Exec W GoError Bool
  check_file path params = do
    content ← try (c.read_file (c.join (params.repo_dir ∷ params.focus ∷ path ∷ [])))
    judge_file params path content

  -- The two loops over the files of a patch: those that `skip` names are passed over, all others
  -- are looked at, and `allowed` becomes false where one is not in an allowed language.
  unfoldable pub check_files :
      (DiffFile → Bool) → (DiffFile → String) → Params → List DiffFile → Bool → Exec W GoError Bool
  check_files skip name params [] allowed = pure allowed
  check_files skip name params (file ∷ files) allowed =
      if skip file then check_files skip name params files allowed else do
        file_allowed ← check_file (remove_patch_prefix (name file)) params
        check_files skip name params files (allowed && file_allowed)

  -- `git apply` and what follows it.
  unfoldable pub git_apply : Params → String → Exec W GoError CommandResult
  git_apply params patch_path = c.execute (record {
    program = "git";
    args = "-C" ∷ c.join (params.repo_dir ∷ params.focus ∷ []) ∷ "apply" ∷ patch_path ∷ [];
  })

  unfoldable pub check_applied : Params → List DiffFile → CommandResult → Exec W GoError (Unit {0})
  check_applied params files result = do
    allowed ← check_files (λ f. f.is_delete) (λ f. f.new_name) params files true
    check allowed forbidden_language
    check (has_code result.exit_code 0) (status_error_wrap failed false none)

  unfoldable pub apply_checked : Params → String → List DiffFile → Bool → Exec W GoError (Unit {0})
  apply_checked params patch_path files allowed = do
    check allowed forbidden_language
    result ← git_apply params patch_path
    check_applied params files result

  -- The files as they are before the patch, and then the rest.
  unfoldable pub apply_files : Params → String → List DiffFile → Exec W GoError (Unit {0})
  apply_files params patch_path files = do
    allowed ← check_files (λ f. f.is_new) (λ f. f.old_name) params files true
    apply_checked params patch_path files allowed

  unfoldable pub apply_patch : Params → String → Exec W GoError (Unit {0})
  apply_patch params patch_path = do
    check
        (not
          (is_empty params.allowed_languages || is_blank params.repo_dir || is_blank params.focus))
        (message "missing call params")
    files ← or_return (parse_patch patch_path) (status_error_wrap failed false none)
    apply_files params patch_path files
