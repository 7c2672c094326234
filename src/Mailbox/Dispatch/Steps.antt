-- ===== src/Mailbox/Dispatch/Steps.antt =====
-- Reading a handler step by step.
use skattr.Base.{◌≡◌, refl}
use skattr.Mailbox.Failure.{Result, ok, err}
use skattr.Mailbox.Dispatch.{State, Handler, ◌>>=◌}

-- What follows from a successful bind, given what follows from its two steps.
pub bind_elim :
    {A B : Type 0} {C : Type 0} (m : Handler A) (f : A → Handler B) (s : State) {s' : State} {b : B}
    → (m >>= f) s ≡ (s', ok b)
    → ((s₁ : State) (a : A) → m s ≡ (s₁, ok a) → f a s₁ ≡ (s', ok b) → C)
    → C
bind_elim {A} {B} {C} m f s {s'} {b} e k = go (m s) refl
  where
    go : (x : State × Result A) → m s ≡ x → C
    go (s₁, ok a) h = k s₁ a h (rw (h) at e)
    go (s₁, err x) h = absurd (let k : (s₁, err x) ≡ (s', ok b) = rw h at e in cc)
