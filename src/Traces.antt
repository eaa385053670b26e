-- ===== src/Traces.antt =====
-- Handlers with what they do to the outside written down, and rules for what they may write down.
-- `Emits P m`: whatever happens, the events of `m` and whether it succeeds are as `P` says.
use mathlib.Core.List.{append-nil, append_assoc}
use competition_api.Prelude.{
  ◌≡◌, refl, sym, ◌∙◌, subst, Bool, true, false, Option, none, some, List, [], ◌∷◌, ◌++◌, Result,
  ok, err, is_ok, Exec, pure, raise, check, act, or_err, or_return, ◌>>=◌, continue, if◌then◌else◌,
}
use competition_api.Http.{HttpError, from_context}
use competition_api.Writes.{Recorded, unrecorded}

abbrev pub noted_result : {Event A E : Type 0} → (A → Event) → Result E A → List Event
noted_result g (ok a) = g a ∷ []
noted_result g (err e) = []

module _ {Event W A E : Type 0} where
  -- An action that is written down, with what it returns, if it succeeds.
  abbrev pub noted : (A → Event) → Exec W E A → Exec (Recorded Event W) E A
  noted g m s = let (r, w') = m s.0 in (r, (w', s.1 ++ noted_result g r))

module _ {Event W : Type 0} where
  -- An action that returns nothing and cannot fail.
  abbrev pub noted_act : Event → (W → W) → Recorded Event W → Recorded Event W
  noted_act x f s = (f s.0, s.1 ++ x ∷ [])

pub record Emitted {Event W : Type 0} (P : Bool → List Event → Type 0) (good : Bool)
    (log : List Event) (s : Recorded Event W) : Type 0 where
  pub events : List Event
  pub allowed : P good events
  pub written : s.1 ≡ log ++ events

pub record Emits {Event W E A : Type 0} (P : Bool → List Event → Type 0)
    (m : Exec (Recorded Event W) E A) : Type 0 where
  pub at : (s : Recorded Event W) → Emitted P (is_ok (m s).0) s.1 (m s).1

module _ {Event W E A : Type 0} {P : Bool → List Event → Type 0} where
  pub Emits-pure : (a : A) → P true [] → Emits {W = W} {E = E} P (pure a)
  Emits-pure a p = record {
    at = λ s. record { events = []; allowed = p; written = sym (append-nil s.1) };
  }

  pub Emits-raise : (e : E) → P false [] → Emits {W = W} {A = A} P (raise e)
  Emits-raise e p = record {
    at = λ s. record { events = []; allowed = p; written = sym (append-nil s.1) };
  }

  pub Emits-unrecorded : (m : Exec W E A) → P true [] → P false [] → Emits P (unrecorded m)
  Emits-unrecorded m p q = record {
    at = λ s. record {
      events = [];
      allowed = either (is_ok (m s.0).0);
      written = sym (append-nil s.1);
    };
  }
    where
      either : (b : Bool) → P b []
      either true = p
      either false = q

module _ {Event W : Type 0} {P : Bool → List Event → Type 0} where
  -- What an event is followed by.
  after_event :
      (x : Event) (log : List Event) {good : Bool} {s : Recorded Event W}
      → Emitted (λ b es. P b (x ∷ es)) good (log ++ x ∷ []) s
      → Emitted P good log s
  after_event x log t = record {
    events = x ∷ t.events;
    allowed = t.allowed;
    written = t.written ∙ append_assoc log (x ∷ []) t.events;
  }

module _ {Event W E A B : Type 0} {P : Bool → List Event → Type 0} where
  Emitted-continue :
      (f : A → Exec (Recorded Event W) E B)
      → P false []
      → (r : Result E A) → ((a : A) → r ≡ ok a → Emits P (f a))
      → (s : Recorded Event W) → Emitted P (is_ok (continue r f s).0) s.1 (continue r f s).1
  Emitted-continue f p (ok a) h s = (h a refl).at s
  Emitted-continue f p (err e) h s = record {
    events = [];
    allowed = p;
    written = sym (append-nil s.1);
  }

  -- A step that writes nothing down; the rest may use what it has returned.
  pub Emits-bind :
      (m : Exec W E A) (f : A → Exec (Recorded Event W) E B)
      → P false []
      → ((w : W) (a : A) → (m w).0 ≡ ok a → Emits P (f a))
      → Emits P (unrecorded m >>= f)
  Emits-bind m f p h = record { at = λ s. Emitted-continue f p (m s.0).0 (h s.0) ((m s.0).1, s.1) }

  Emitted-noted :
      (g : A → Event) (f : A → Exec (Recorded Event W) E B)
      → P false []
      → (r : Result E A) → ((a : A) → r ≡ ok a → Emits (λ b es. P b (g a ∷ es)) (f a))
      → (w : W) (log : List Event)
      → Emitted P
          (is_ok (continue r f (w, log ++ noted_result g r)).0)
          log
          (continue r f (w, log ++ noted_result g r)).1
  Emitted-noted g f p (ok a) h w log = after_event (g a) log ((h a refl).at (w, log ++ g a ∷ []))
  Emitted-noted g f p (err e) h w log = record { events = []; allowed = p; written = refl }

  -- A step that is written down; the rest follows that event.
  pub Emits-noted :
      (g : A → Event) (m : Exec W E A) (f : A → Exec (Recorded Event W) E B)
      → P false []
      → ((w : W) (a : A) → (m w).0 ≡ ok a → Emits (λ b es. P b (g a ∷ es)) (f a))
      → Emits P (noted g m >>= f)
  Emits-noted g m f p h = record { at = λ s. Emitted-noted g f p (m s.0).0 (h s.0) (m s.0).1 s.1 }

module _ {Event W B : Type 0} {P : Bool → List Event → Type 0} where
  pub Emits-from_context :
      {C : Type 0} (o : Option C) (f : C → Exec (Recorded Event W) HttpError B)
      → P false []
      → ((a : C) → o ≡ some a → Emits P (f a))
      → Emits P (from_context o >>= f)
  Emits-from_context none f p h = Emits-raise _ p
  Emits-from_context (some a) f p h = h a refl

module _ {Event W E B : Type 0} {P : Bool → List Event → Type 0} where
  pub Emits-check :
      (b : Bool) (e : E) (m : Exec (Recorded Event W) E B)
      → P false []
      → (b ≡ true → Emits P m)
      → Emits P (check b e >>= λ _. m)
  Emits-check true e m p h = h refl
  Emits-check false e m p h = Emits-raise e p

  pub Emits-act :
      (x : Event) (f : W → W) (m : Exec (Recorded Event W) E B)
      → Emits (λ b es. P b (x ∷ es)) m
      → Emits P (act (noted_act x f) >>= λ _. m)
  Emits-act x f m h = record { at = λ s. after_event x s.1 (h.at (f s.0, s.1 ++ x ∷ [])) }

-- `m` writes nothing down.
pub record Quiet {Event W E A : Type 0} (m : Exec (Recorded Event W) E A) : Type 0 where
  pub at : (s : Recorded Event W) → (m s).1.1 ≡ s.1

module _ {Event W E A : Type 0} where
  pub Quiet-unrecorded : (m : Exec W E A) → Quiet {Event = Event} (unrecorded m)
  Quiet-unrecorded m = record { at = λ s. refl }

  pub Quiet-pure : (a : A) → Quiet {Event = Event} {W = W} {E = E} (pure a)
  Quiet-pure a = record { at = λ s. refl }

  pub Quiet-raise : (e : E) → Quiet {Event = Event} {W = W} {A = A} (raise e)
  Quiet-raise e = record { at = λ s. refl }

  pub Quiet-if :
      (b : Bool) (m n : Exec (Recorded Event W) E A)
      → Quiet m
      → Quiet n
      → Quiet (if b then m else n)
  Quiet-if true m n hm hn = hm
  Quiet-if false m n hm hn = hn

module _ {Event W E F A : Type 0} where
  pub Quiet-or_return : (m : Exec (Recorded Event W) F A) (e : E) → Quiet m → Quiet (or_return m e)
  Quiet-or_return m e h = record { at = λ s. h.at s }

module _ {Event W E A B : Type 0} where
  Quiet-continue :
      (f : A → Exec (Recorded Event W) E B)
      → ((a : A) → Quiet (f a))
      → (r : Result E A) (s : Recorded Event W) → (continue r f s).1.1 ≡ s.1
  Quiet-continue f h (ok a) s = (h a).at s
  Quiet-continue f h (err e) s = refl

  pub Quiet-bind :
      (m : Exec (Recorded Event W) E A) (f : A → Exec (Recorded Event W) E B)
      → Quiet m
      → ((a : A) → Quiet (f a))
      → Quiet (m >>= f)
  Quiet-bind m f hm hf = record { at = λ s. Quiet-continue f hf (m s).0 (m s).1 ∙ hm.at s }

  Emitted-Quiet :
      {P : Bool → List Event → Type 0} (f : A → Exec (Recorded Event W) E B)
      → P false []
      → (r : Result E A) → ((a : A) → r ≡ ok a → Emits P (f a))
      → (log : List Event) (s : Recorded Event W) → s.1 ≡ log
      → Emitted P (is_ok (continue r f s).0) log (continue r f s).1
  Emitted-Quiet {P} f p r h log s e =
      subst (λ l. Emitted P (is_ok (continue r f s).0) l (continue r f s).1) e
        (Emitted-continue f p r h s)

  -- A step of several parts that writes nothing down.
  pub Emits-Quiet :
      {P : Bool → List Event → Type 0} (m : Exec (Recorded Event W) E A)
      (f : A → Exec (Recorded Event W) E B)
      → Quiet m
      → P false []
      → ((s : Recorded Event W) (a : A) → (m s).0 ≡ ok a → Emits P (f a))
      → Emits P (m >>= f)
  Emits-Quiet m f q p h = record { at = λ s. Emitted-Quiet f p (m s).0 (h s) s.1 (m s).1 (q.at s) }

module _ {Event W E F A B : Type 0} {P : Bool → List Event → Type 0} where
  Emitted-after :
      (g : A → Event) (k : A → W → W) (e : E) (f : Unit {0} → Exec (Recorded Event W) E B)
      → P false []
      → ((a : A) → Emits (λ b es. P b (g a ∷ es)) (f tt))
      → (r : Result F A) (log : List Event) (s : Recorded Event W) → s.1 ≡ log
      → let next =
          continue
            (or_err (continue r (λ a. act (noted_act (g a) (k a))) s).0 e)
            f
            (continue r (λ a. act (noted_act (g a) (k a))) s).1 in
        Emitted P (is_ok next.0) log next.1
  Emitted-after g k e f p h (ok a) log s q =
      subst
        (λ l.
          Emitted P (is_ok (f tt (noted_act (g a) (k a) s)).0) l (f tt (noted_act (g a) (k a) s)).1)
        q (after_event (g a) s.1 ((h a).at (noted_act (g a) (k a) s)))
  Emitted-after g k e f p h (err x) log s q = record {
    events = [];
    allowed = p;
    written = q ∙ sym (append-nil log);
  }

  -- A step that writes nothing down but its last act, and whose error is replaced.
  pub Emits-after :
      (m : Exec (Recorded Event W) F A) (g : A → Event) (k : A → W → W) (e : E)
      (f : Unit {0} → Exec (Recorded Event W) E B)
      → Quiet m
      → P false []
      → ((a : A) → Emits (λ b es. P b (g a ∷ es)) (f tt))
      → Emits P (or_return (m >>= λ a. act (noted_act (g a) (k a))) e >>= f)
  Emits-after m g k e f q p h = record {
    at = λ s. Emitted-after g k e f p h (m s).0 s.1 (m s).1 (q.at s);
  }

module _ {Event W E A B C : Type 0} {P : Bool → List Event → Type 0} where
  Emitted-assoc :
      (g : A → Exec (Recorded Event W) E B) (f : B → Exec (Recorded Event W) E C) (r : Result E A)
      (log : List Event) (s : Recorded Event W)
      → Emitted P (is_ok (continue r (λ a. g a >>= f) s).0) log (continue r (λ a. g a >>= f) s).1
      → let next = continue (continue r g s).0 f (continue r g s).1 in
        Emitted P (is_ok next.0) log next.1
  Emitted-assoc g f (ok a) log s t = t
  Emitted-assoc g f (err e) log s t = t

  -- A block within a block.
  pub Emits-assoc :
      (m : Exec (Recorded Event W) E A) (g : A → Exec (Recorded Event W) E B)
      (f : B → Exec (Recorded Event W) E C)
      → Emits P (m >>= λ a. g a >>= f)
      → Emits P (m >>= g >>= f)
  Emits-assoc m g f h = record { at = λ s. Emitted-assoc g f (m s).0 s.1 (m s).1 (h.at s) }

module _ {Event W E F A B : Type 0} {P : Bool → List Event → Type 0} where
  Emitted-noted_or :
      (g : A → Event) (e : E) (f : A → Exec (Recorded Event W) E B)
      → P false []
      → (r : Result F A) → ((a : A) → r ≡ ok a → Emits (λ b es. P b (g a ∷ es)) (f a))
      → (w : W) (log : List Event)
      → Emitted P
          (is_ok (continue (or_err r e) f (w, log ++ noted_result g r)).0)
          log
          (continue (or_err r e) f (w, log ++ noted_result g r)).1
  Emitted-noted_or g e f p (ok a) h w log =
      after_event (g a) log ((h a refl).at (w, log ++ g a ∷ []))
  Emitted-noted_or g e f p (err x) h w log = record { events = []; allowed = p; written = refl }

  -- A step that is written down and whose error is replaced.
  pub Emits-noted_or :
      (g : A → Event) (m : Exec W F A) (e : E) (f : A → Exec (Recorded Event W) E B)
      → P false []
      → ((w : W) (a : A) → (m w).0 ≡ ok a → Emits (λ b es. P b (g a ∷ es)) (f a))
      → Emits P (or_return (noted g m) e >>= f)
  Emits-noted_or g m e f p h = record {
    at = λ s. Emitted-noted_or g e f p (m s.0).0 (h s.0) (m s.0).1 s.1;
  }

pub ruleset quiet_rules =
    (Quiet-unrecorded, Quiet-pure, Quiet-raise, Quiet-if, Quiet-or_return, Quiet-bind)
