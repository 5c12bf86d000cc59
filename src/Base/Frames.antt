-- ===== src/Base/Frames.antt =====
-- What a block leaves alone: a view of the state that is the same after it, by return or by raise.
use scope_guard.Base.{
  ◌≡◌, refl, ◌∙◌, Bool, true, false, Option, none, some, Error, Result, ok, err, Exec, pure, raise,
  lift, gets, ask, raise_if, or_raise, ◌>>=◌, if◌then◌else◌,
}

pub record Frame {S X A : Type 0} (view : S → X) (m : Exec S A) : Type 0 where
  pub at : (s : S) → view (m s).1 ≡ view s

or_raise_state :
    {S X A : Type 0} (view : S → X) (o : Option A) (e : Error) (s : S)
    → view (or_raise o e s).1 ≡ view s
or_raise_state view none e s = refl
or_raise_state view (some a) e s = refl

module _ {S X : Type 0} {view : S → X} where
  pub Frame-pure : {A : Type 0} (a : A) → Frame view (pure a)
  Frame-pure a = record { at = λ s. refl }

  pub Frame-raise : {A : Type 0} (e : Error) → Frame view (raise {A = A} e)
  Frame-raise e = record { at = λ s. refl }

  pub Frame-lift : {A : Type 0} (r : Result A) → Frame view (lift r)
  Frame-lift r = record { at = λ s. refl }

  pub Frame-gets : {A : Type 0} (f : S → A) → Frame view (gets f)
  Frame-gets f = record { at = λ s. refl }

  pub Frame-raise_if : (b : Bool) (e : Error) → Frame view (raise_if b e)
  Frame-raise_if true e = record { at = λ s. refl }
  Frame-raise_if false e = record { at = λ s. refl }

  pub Frame-ask : {A : Type 0} (f : S → Option A) (e : Error) → Frame view (ask f e)
  unfolding ask
  Frame-ask f e = record { at = λ s. or_raise_state view (f s) e s }

  pub Frame-if :
      {A : Type 0} (b : Bool) (m n : Exec S A)
      → Frame view m
      → Frame view n
      → Frame view (if b then m else n)
  Frame-if true m n h k = h
  Frame-if false m n h k = k

module _ {S X A B : Type 0} {view : S → X} where
  bind_state :
      (r : Result A) (s t : S) (f : A → Exec S B)
      → view s ≡ view t
      → ((a : A) → Frame view (f a))
      → view (let x : Result B × S = elim r [ ok a ↦ f a s | err e ↦ (err e, s) ] in x).1 ≡ view t
  bind_state (ok a) s t f h k = (k a).at s ∙ h
  bind_state (err e) s t f h k = h

  pub Frame-bind :
      (m : Exec S A) (f : A → Exec S B)
      → Frame view m
      → ((a : A) → Frame view (f a))
      → Frame view (m >>= f)
  unfolding ◌>>=◌
  Frame-bind m f h k = record { at = λ s. bind_state (m s).0 (m s).1 s f (h.at s) k }

pub ruleset frame_rules = (
  Frame-pure, Frame-raise, Frame-lift, Frame-gets, Frame-raise_if, Frame-ask, Frame-if, Frame-bind,
)
