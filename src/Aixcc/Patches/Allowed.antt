-- ===== src/Aixcc/Patches/Allowed.antt =====
-- The files of a patch, as they are read before and after it is applied.
use competition_api.Prelude.{
  String, ◌≡◌, refl, Bool, true, false, ◌&&◌, List, [], ◌∷◌, Result, ok, err, Exec, check,
  or_return, continue, ◌>>=◌, none, >>=-eq-ok, guard_inv, or_return_inv, Bool-cases, inl, inr,
  arith,
}
use competition_api.WorkerErrors.{GoError, status_error_wrap}
use competition_api.Types.Status.{failed}
use competition_api.Types.ExitCode.{has_code}
use competition_api.Engine.{Params}
use competition_api.Aixcc.{AixccEngine, DiffFile, CommandResult}
use competition_api.Aixcc.Files.{contains_name}
use competition_api.Aixcc.Patches.{
  forbidden_language, get_language, remove_patch_prefix, parse_patch, check_file, judge_file,
  check_files, git_apply, check_applied, apply_checked, apply_files, apply_patch,
}

module _ {W : Type 0} (c : AixccEngine W) where
  -- The file can be read in the repository, and its language is an allowed one.
  pub record IsAllowed (params : Params) (path : String) (w w' : W) : Type 0 where
    pub content : String
    pub read :
        c.read_file (c.join (params.repo_dir ∷ params.focus ∷ path ∷ [])) w ≡ (ok content, w')
    pub allowed :
        contains_name params.allowed_languages (get_language c.guess_languages path content) ≡ true

  -- Every file of the patch that is not skipped is allowed, looked at one after the other.
  pub data AllAllowed (skip : DiffFile → Bool) (name : DiffFile → String) (params : Params)
      : List DiffFile → W → W → Type 0 where
    finished : {w : W} → AllAllowed skip name params [] w w
    skipped :
        {f : DiffFile} {fs : List DiffFile} {w w' : W}
        → skip f ≡ true
        → AllAllowed skip name params fs w w'
        → AllAllowed skip name params (f ∷ fs) w w'
    looked_at :
        {f : DiffFile} {fs : List DiffFile} {w w' w'' : W}
        → skip f ≡ false
        → IsAllowed params (remove_patch_prefix (name f)) w w'
        → AllAllowed skip name params fs w' w''
        → AllAllowed skip name params (f ∷ fs) w w''

  IsAllowed-judge :
      (params : Params) (path : String) (w w' : W) (o : Result GoError String)
      → c.read_file (c.join (params.repo_dir ∷ params.focus ∷ path ∷ [])) w ≡ (o, w')
      → (judge_file c params path o w').0 ≡ ok true
      → IsAllowed params path w (judge_file c params path o w').1
  IsAllowed-judge params path w w' (ok content) h judged = record {
    content = content;
    read = h;
    allowed = ground arith;
  }
  IsAllowed-judge params path w w' (err e) h judged = cc

  IsAllowed-check_file :
      (params : Params) (path : String) (w : W)
      → (check_file c path params w).0 ≡ ok true
      → IsAllowed params path w (check_file c path params w).1
  unfolding check_file
  IsAllowed-check_file params path w h = IsAllowed-judge params path w _ _ refl h

  module _ (skip : DiffFile → Bool) (name : DiffFile → String) (params : Params) where
    -- One file that is not skipped, and then the rest.
    abbrev look : DiffFile → List DiffFile → Bool → Exec W GoError Bool
    look f files allowed = check_file c (remove_patch_prefix (name f)) params >>= λ b.
        check_files c skip name params files (allowed && b)

    look_inv :
        (f : DiffFile) (files : List DiffFile) (allowed : Bool) (w : W)
        → (look f files allowed w).0 ≡ ok true
        → (b : Bool) × ((check_file c (remove_patch_prefix (name f)) params w).0 ≡ ok b)
          × ((check_files c skip name params files
                (allowed && b)
                (check_file c (remove_patch_prefix (name f)) params w).1).0
              ≡ ok true)
    look_inv f files allowed w h =
        >>=-eq-ok (check_file c (remove_patch_prefix (name f)) params)
          (λ b. check_files c skip name params files (allowed && b)) w h

    check_files-denied :
        (files : List DiffFile) (w : W)
        → ¬ ((check_files c skip name params files false w).0 ≡ ok true)
    unfolding check_files
    check_files-denied [] w h = cc
    check_files-denied (f ∷ files) w h = elim (Bool-cases (skip f)) [
      | inl over ↦ check_files-denied files w (rw over at h)
      | inr seen ↦ check_files-denied files _ (look_inv f files false w (rw seen at h)).2
    ]

    AllAllowed-look :
        (f : DiffFile) (files : List DiffFile) (w w' : W) (o : Result GoError Bool) (b : Bool)
        → o ≡ ok b
        → skip f ≡ false
        → (o ≡ ok true → IsAllowed params (remove_patch_prefix (name f)) w w')
        → (check_files c skip name params files b w').0 ≡ ok true
        → ((check_files c skip name params files true w').0 ≡ ok true
            → AllAllowed skip name params files w' (check_files c skip name params files true w').1)
        → AllAllowed skip name params
            (f ∷ files)
            w
            (continue o (λ d. check_files c skip name params files (true && d)) w').1
    AllAllowed-look f files w w' o true e seen one h more = rw e (looked_at seen (one e) (more h))
    AllAllowed-look f files w w' o false e seen one h more = absurd (check_files-denied files w' h)

    check_files-AllAllowed :
        (files : List DiffFile) (w : W)
        → (check_files c skip name params files true w).0 ≡ ok true
        → AllAllowed skip name params files w (check_files c skip name params files true w).1
    unfolding check_files
    check_files-AllAllowed [] w h = finished
    check_files-AllAllowed (f ∷ files) w h = elim (Bool-cases (skip f)) [
      | inl over ↦ rw over (skipped over (check_files-AllAllowed files w (rw over at h)))
      | inr seen ↦
          let (b, looked, rest) = look_inv f files true w (rw seen at h) in
          rw seen (
            AllAllowed-look f files w _ _ b looked seen
              (IsAllowed-check_file params (remove_patch_prefix (name f)) w) rest
              (check_files-AllAllowed files _))
    ]

  -- What a patch that was applied has gone through: it was parsed, the files that it changes were
  -- allowed, `git apply` ended with exit code 0, and the files that it leaves were allowed.
  pub record Applied (params : Params) (patch_path : String) (w : W) : Type 0 where
    pub files : List DiffFile
    pub before : W
    pub after : W
    pub result : CommandResult
    pub parsed : (parse_patch c patch_path w).0 ≡ ok files
    pub allowed_before :
        AllAllowed
          (λ f. f.is_new)
          (λ f. f.old_name)
          params
          files
          (parse_patch c patch_path w).1
          before
    pub executed : (git_apply c params patch_path before).0 ≡ ok result
    pub exit_zero : has_code result.exit_code 0 ≡ true
    pub allowed_after :
        AllAllowed
          (λ f. f.is_delete)
          (λ f. f.new_name)
          params
          files
          (git_apply c params patch_path before).1
          after

  check_applied_inv :
      (params : Params) (files : List DiffFile) (r : CommandResult) (w : W)
      → (check_applied c params files r w).0 ≡ ok tt
      → ((check_files c (λ f. f.is_delete) (λ f. f.new_name) params files true w).0 ≡ ok true)
        × (has_code r.exit_code 0 ≡ true)
  unfolding check_applied
  check_applied_inv params files r w h =
      let a =
        >>=-eq-ok (check_files c (λ f. f.is_delete) (λ f. f.new_name) params files true)
          (λ b. check b forbidden_language >>= λ _.
            check (has_code r.exit_code 0) (status_error_wrap failed false none))
          w h in
      let b = guard_inv a.0 forbidden_language _ _ a.2 in (rw b.0 at a.1, ground arith)

  apply_files_inv :
      (params : Params) (patch_path : String) (files : List DiffFile) (w : W)
      → (apply_files c params patch_path files w).0 ≡ ok tt
      → (b : Bool) × ((check_files c (λ f. f.is_new) (λ f. f.old_name) params files true w).0
          ≡ ok b)
        × ((apply_checked c params patch_path files b
              (check_files c (λ f. f.is_new) (λ f. f.old_name) params files true w).1).0
            ≡ ok tt)
  unfolding apply_files
  apply_files_inv params patch_path files w h =
      >>=-eq-ok (check_files c (λ f. f.is_new) (λ f. f.old_name) params files true)
        (apply_checked c params patch_path files) w h

  apply_checked_inv :
      (params : Params) (patch_path : String) (files : List DiffFile) (b : Bool) (w : W)
      → (apply_checked c params patch_path files b w).0 ≡ ok tt
      → (b ≡ true)
        × (r : CommandResult) × ((git_apply c params patch_path w).0 ≡ ok r)
        × ((check_applied c params files r (git_apply c params patch_path w).1).0 ≡ ok tt)
  unfolding apply_checked
  apply_checked_inv params patch_path files b w h =
      let g =
        guard_inv b forbidden_language
          (git_apply c params patch_path >>= check_applied c params files) w h in
      let a = >>=-eq-ok (git_apply c params patch_path) (check_applied c params files) w g.1 in
      (g.0, a.0, a.1, a.2)

  -- If `ApplyPatch` succeeds, the patch was parsed, every file that it changes (all but the new ones)
  -- could be read beforehand and was in an allowed language, `git apply` was run from there and ended
  -- with exit code 0, and every file that it leaves (all but the deleted ones) could be read
  -- afterwards and was in an allowed language.
  pub apply_patch-Applied :
      (params : Params) (patch_path : String) (w : W)
      → (apply_patch c params patch_path w).0 ≡ ok tt
      → Applied params patch_path w
  unfolding apply_patch
  apply_patch-Applied params patch_path w h =
      let g =
        guard_inv _ _
          (or_return (parse_patch c patch_path) (status_error_wrap failed false none)
            >>= apply_files c params patch_path)
          w h in
      let a =
        >>=-eq-ok (or_return (parse_patch c patch_path) (status_error_wrap failed false none))
          (apply_files c params patch_path) w g.1 in
      let w' = (parse_patch c patch_path w).1 in
      let f = apply_files_inv params patch_path a.0 w' a.2 in
      let x = apply_checked_inv params patch_path a.0 f.0 _ f.2 in
      let z = check_applied_inv params a.0 x.1 _ x.3 in
      record {
        files = a.0;
        before = (check_files c (λ f. f.is_new) (λ f. f.old_name) params a.0 true w').1;
        after = _;
        result = x.1;
        parsed = or_return_inv (parse_patch c patch_path) _ w a.1;
        allowed_before = check_files-AllAllowed _ _ params a.0 w' (rw x.0 at f.1);
        executed = x.2;
        exit_zero = z.1;
        allowed_after = check_files-AllAllowed _ _ params a.0 _ z.0;
      }
