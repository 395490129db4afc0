-- ===== src/Store/Gives.antt =====
-- What code ends with, where it ends with a result: rules for the monad.
use b6b.Base.{◌≡◌, refl, Bool, true, false, if◌then◌else◌}
use mathlib.Core.Path.{subst}
use b6b.Store.{State}
use b6b.Store.Monad.{M, done, ◌>>=◌, pure, crash, stuck, bind-done}

pub record Gives {A : Type 0} (P : A → Type 0) (m : M A) : Type 0 where
  pub gives : (st : State) (a : A) (st' : State) → m st ≡ done a st' → P a

module _ {A : Type 0} (P : A → Type 0) where
  pub pure-Gives : (a : A) → P a → Gives P (pure a)
  pure-Gives a h = record { gives = λ st b st' e. let q : a ≡ b = cc in subst P q h }

  pub crash-Gives : Gives P crash
  crash-Gives = record { gives = λ st b st' e. absurd cc }

  pub stuck-Gives : Gives P stuck
  stuck-Gives = record { gives = λ st b st' e. absurd cc }

  pub bind-Gives :
      {B : Type 0} (m : M B) (k : B → M A) → ((b : B) → Gives P (k b)) → Gives P (m >>= k)
  bind-Gives m k h = record {
    gives =
        λ st a st' e. let (b, mid, _, e') = bind-done m k st a st' e in (h b).gives mid a st' e';
  }

  -- With what the first step gives.
  pub then-Gives :
      {B : Type 0} (Q : B → Type 0) (m : M B) (k : B → M A)
      → Gives Q m
      → ((b : B) → Q b → Gives P (k b))
      → Gives P (m >>= k)
  then-Gives Q m k hm h = record {
    gives = λ st a st' e.
        let (b, mid, e0, e') = bind-done m k st a st' e in
        (h b (hm.gives st b mid e0)).gives mid a st' e';
  }

  -- With what the test tells.
  pub if-Gives :
      (b : Bool) (m n : M A)
      → (b ≡ true → Gives P m)
      → (b ≡ false → Gives P n)
      → Gives P (if b then m else n)
  if-Gives true m n hm hn = hm refl
  if-Gives false m n hm hn = hn refl
