-- ===== src/Writes.antt =====
-- Handlers with their writes to the database and the audit log written down, and what it is to make
-- at most one write of an allowed kind, with one rule for each way to build a handler.
use mathlib.Core.List.{append-nil}
use competition_api.Prelude.{
  ◌≡◌, refl, Bool, true, false, ◌⊎◌, inl, inr, Option, none, some, List, [], ◌∷◌, ◌++◌, Result, ok,
  err, Exec, pure, check, or_err, or_return, ◌>>=◌, continue,
}
use competition_api.Http.{HttpError, from_context}

-- A world with the writes made in it, the last one at the end; `Event` is what a write is.
abbrev pub Recorded : Type 0 → Type 0 → Type 0
Recorded Event W = W × List Event

module _ {Event W A E : Type 0} where
  abbrev pub unrecorded : Exec W E A → Exec (Recorded Event W) E A
  unrecorded m s = let (r, w') = m s.0 in (r, (w', s.1))

abbrev pub entry : {Event E A : Type 0} → Event → Result E A → List Event
entry x (ok a) = x ∷ []
entry x (err e) = []

module _ {Event W A E : Type 0} where
  -- A write is recorded if it succeeds.
  abbrev pub recorded : Event → Exec W E A → Exec (Recorded Event W) E A
  recorded x m s = let (r, w') = m s.0 in (r, (w', s.1 ++ entry x r))

-- The writes of `m` are none, or one with the property `P`.
pub record Wrote {Event W : Type 0} (P : Event → Type 0) (log : List Event) (s : Recorded Event W)
    : Type 0 where
  pub written : (s.1 ≡ log) ⊎ ((x : Event) × P x × (s.1 ≡ log ++ x ∷ []))

pub record Writes {Event W A : Type 0} (P : Event → Type 0)
    (m : Exec (Recorded Event W) HttpError A) : Type 0 where
  pub at : (s : Recorded Event W) → Wrote P s.1 (m s).1

-- `m` makes no write.
pub record Silent {Event W A : Type 0} (m : Exec (Recorded Event W) HttpError A) : Type 0 where
  pub at : (s : Recorded Event W) → (m s).1.1 ≡ s.1

module _ {Event W A : Type 0} where
  pub Silent-pure : (a : A) → Silent {Event = Event} {W = W} (pure a)
  Silent-pure a = record { at = λ s. refl }

  pub Silent-unrecorded : (m : Exec W HttpError A) → Silent {Event = Event} (unrecorded m)
  Silent-unrecorded m = record { at = λ s. refl }

  pub Writes-Silent :
      {P : Event → Type 0} (m : Exec (Recorded Event W) HttpError A) → Silent m → Writes P m
  Writes-Silent m h = record { at = λ s. record { written = inl (h.at s) } }

module _ {Event W A B : Type 0} {P : Event → Type 0} where
  Wrote-continue :
      (f : A → Exec (Recorded Event W) HttpError B)
      → (r : Result HttpError A) → ((a : A) → r ≡ ok a → Writes P (f a))
      → (s : Recorded Event W) → Wrote P s.1 (continue r f s).1
  Wrote-continue f (ok a) h s = (h a refl).at s
  Wrote-continue f (err e) h s = record { written = inl refl }

  -- The rest may use what a step that makes no write has returned.
  pub Writes-bind :
      (m : Exec W HttpError A) (f : A → Exec (Recorded Event W) HttpError B)
      → ((w : W) (a : A) → (m w).0 ≡ ok a → Writes P (f a))
      → Writes P (unrecorded m >>= f)
  Writes-bind m f h = record { at = λ s. Wrote-continue f (m s.0).0 (h s.0) ((m s.0).1, s.1) }

  pub Writes-from_context :
      (o : Option A) (f : A → Exec (Recorded Event W) HttpError B)
      → ((a : A) → o ≡ some a → Writes P (f a))
      → Writes P (from_context o >>= f)
  Writes-from_context none f h = record { at = λ s. record { written = inl refl } }
  Writes-from_context (some a) f h = h a refl

  Wrote-entry :
      {F : Type 0} (x : Event) (log : List Event) (e : HttpError)
      (f : A → Exec (Recorded Event W) HttpError B)
      → P x
      → ((a : A) → Silent (f a))
      → (r : Result F A) (w : W) → Wrote P log (continue (or_err r e) f (w, log ++ entry x r)).1
  Wrote-entry x log e f px quiet (ok a) w = record { written = inr (x, px, (quiet a).at _) }
  Wrote-entry x log e f px quiet (err g) w = record { written = inl (append-nil log) }

  -- The write, with the property proved, and nothing written after it.
  pub Writes-recorded :
      {F : Type 0} (x : Event) (m : Exec W F A) (e : HttpError)
      (f : A → Exec (Recorded Event W) HttpError B)
      → P x
      → ((a : A) → Silent (f a))
      → Writes P (or_return (recorded x m) e >>= f)
  Writes-recorded x m e f px quiet = record {
    at = λ s. Wrote-entry x s.1 e f px quiet (m s.0).0 (m s.0).1;
  }

module _ {Event W A : Type 0} {P : Event → Type 0} where
  -- The rest may use that the guard held.
  pub Writes-check :
      (b : Bool) (e : HttpError) (m : Exec (Recorded Event W) HttpError A)
      → (b ≡ true → Writes P m)
      → Writes P (check b e >>= λ _. m)
  Writes-check true e m h = h refl
  Writes-check false e m h = record { at = λ s. record { written = inl refl } }
