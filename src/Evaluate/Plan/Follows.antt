-- ===== src/Evaluate/Plan/Follows.antt =====
-- `Follows m calls`: the calls that `m` makes begin `calls`, and are all of them if it succeeds.
-- One rule for each way to build an action.
use mathlib.Core.List.{append-nil, append_assoc}
use competition_api.Prelude.{
  ◌≡◌, refl, sym, ◌∙◌, ap, Bool, true, false, List, [], ◌∷◌, ◌++◌, Result, ok, err, is_ok, Exec,
  pure, deferring, on_error, after_error, ◌>>=◌, continue, if◌then◌else◌,
}
use competition_api.WorkerErrors.{GoError}
use competition_api.Evaluate.Plan.{Call, Traced, quiet, quietly, logged}

pub record Step {W A : Type 0} (calls log : List Call) (r : Result GoError A) (s : Traced W)
    : Type 0 where
  pub made : List Call
  pub left : List Call
  pub planned : calls ≡ made ++ left
  pub written : s.1 ≡ log ++ made
  pub complete : is_ok r ≡ true → left ≡ []

pub record Follows {W A : Type 0} (m : Exec (Traced W) GoError A) (calls : List Call) : Type 0 where
  pub at : (s : Traced W) → Step calls s.1 (m s).0 (m s).1

module _ {W A : Type 0} where
  pub Follows-pure : (a : A) → Follows {W = W} (pure a) []
  Follows-pure a = record {
    at = λ s. record {
      made = [];
      left = [];
      planned = refl;
      written = sym (append-nil s.1);
      complete = λ _. refl;
    };
  }

  pub Follows-quiet : (m : Exec W GoError A) → Follows (quiet m) []
  Follows-quiet m = record {
    at = λ s. record {
      made = [];
      left = [];
      planned = refl;
      written = sym (append-nil s.1);
      complete = λ _. refl;
    };
  }

  pub Follows-logged : (c : Call) (m : Exec W GoError A) → Follows (logged c m) (c ∷ [])
  Follows-logged c m = record {
    at = λ s. record {
      made = c ∷ [];
      left = [];
      planned = refl;
      written = refl;
      complete = λ _. refl;
    };
  }

  pub Follows-deferring :
      (f : W → W) (m : Exec (Traced W) GoError A) {calls : List Call}
      → Follows m calls
      → Follows (deferring (quietly f) m) calls
  Follows-deferring f m h = record {
    at = λ s.
        let t = h.at s in
        record {
          made = t.made;
          left = t.left;
          planned = t.planned;
          written = t.written;
          complete = t.complete;
        };
  }

  after_error_log :
      (f : W → W) (r : Result GoError A) (s : Traced W) → (after_error (quietly f) r s).1 ≡ s.1
  after_error_log f (ok a) s = refl
  after_error_log f (err e) s = refl

  pub Follows-on_error :
      (f : W → W) (m : Exec (Traced W) GoError A) {calls : List Call}
      → Follows m calls
      → Follows (on_error (quietly f) m) calls
  Follows-on_error f m h = record {
    at = λ s.
        let t = h.at s in
        record {
          made = t.made;
          left = t.left;
          planned = t.planned;
          written = after_error_log f (m s).0 (m s).1 ∙ t.written;
          complete = t.complete;
        };
  }

  pub Follows-if :
      (b : Bool) (m n : Exec (Traced W) GoError A) {p q : List Call}
      → Follows m p
      → Follows n q
      → Follows (if b then m else n) (if b then p else q)
  Follows-if true m n hm hn = hm
  Follows-if false m n hm hn = hn

module _ {W A B : Type 0} where
  Step-continue :
      (p q log : List Call) (f : A → Exec (Traced W) GoError B)
      → ((a : A) → Follows (f a) q)
      → (r : Result GoError A) (s : Traced W) → Step p log r s
      → Step (p ++ q) log (continue r f s).0 (continue r f s).1
  Step-continue p q log f hf (ok a) s t =
      let u = (hf a).at s in
      record {
        made = t.made ++ u.made;
        left = u.left;
        planned =
            rw (t.planned, t.complete refl, append-nil, u.planned)
              (sym (append_assoc t.made u.made u.left));
        written = u.written ∙ ap (λ l. l ++ u.made) t.written ∙ append_assoc log t.made u.made;
        complete = u.complete;
      }
  Step-continue p q log f hf (err e) s t = record {
    made = t.made;
    left = t.left ++ q;
    planned = rw t.planned (append_assoc t.made t.left q);
    written = t.written;
    complete = λ h. cc;
  }

  pub Follows-bind :
      (m : Exec (Traced W) GoError A) (f : A → Exec (Traced W) GoError B) {p q : List Call}
      → Follows m p
      → ((a : A) → Follows (f a) q)
      → Follows (m >>= f) (p ++ q)
  Follows-bind m f {p} {q} hm hf = record {
    at = λ s. Step-continue p q s.1 f hf (m s).0 (m s).1 (hm.at s);
  }

module _ {W A B : Type 0} where
  -- The rule at a step that makes no call.
  pub Follows-bind_quiet :
      (m : Exec W GoError A) (f : A → Exec (Traced W) GoError B) {q : List Call}
      → ((a : A) → Follows (f a) q)
      → Follows (quiet m >>= f) q
  Follows-bind_quiet m f hf = Follows-bind (quiet m) f (Follows-quiet m) hf

pub ruleset follows_rules =
    (Follows-bind_quiet, Follows-deferring, Follows-pure, Follows-quiet, Follows-on_error)
