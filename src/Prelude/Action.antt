-- ===== src/Prelude/Action.antt =====
-- Coroutines that change a state and may raise: the state comes back after a raise too.
use mathlib.Core.Path.{◌≡◌, refl, ap}
use mathlib.Core.Logic.{◌⊎◌, inl, inr}
use mathlib.Core.Bool.{Bool}
use async_substrate_interfac.Prelude.Tests.{if◌then◌else◌}

abbrev pub Action : Type 0 → Type 0 → Type 0 → Type 0
Action W E A = W → W × (E ⊎ A)

module _ {W E : Type 0} where
  abbrev pub pure : {A : Type 0} → A → Action W E A
  pure a w = (w, inr a)

  abbrev pub raise : {A : Type 0} → E → Action W E A
  raise e w = (w, inl e)

  abbrev pub lift : {A : Type 0} → E ⊎ A → Action W E A
  lift r w = (w, r)

  abbrev pub raise_if : Bool → E → Action W E Unit
  raise_if b e w = if b then (w, inl e) else (w, inr tt)

  -- What an action that has been run leads to.
  unfoldable pub go_on : {A B : Type 0} → (A → Action W E B) → W × (E ⊎ A) → W × (E ⊎ B)
  go_on f (w, inl e) = (w, inl e)
  go_on f (w, inr a) = f a w

infixl 5 ◌>>=◌ ◌>>◌
abbrev pub ◌>>=◌ : {W E A B : Type 0} → Action W E A → (A → Action W E B) → Action W E B
◌>>=◌ m f w = go_on f (m w)

abbrev pub ◌>>◌ : {W E A B : Type 0} → Action W E A → Action W E B → Action W E B
m >> k = m >>= λ _. k

-- An action that returns has run its parts: what its first part returned, and the rest from there.
pub go_on-inr :
    {W E A B : Type 0} (f : A → Action W E B) (r : W × (E ⊎ A)) (b : B)
    → (go_on f r).1 ≡ inr b
    → (a : A) × (w : W) × (r ≡ (w, inr a)) × ((f a w).1 ≡ inr b)
unfolding go_on
go_on-inr f (w, inl e) b h = absurd (cc h)
go_on-inr f (w, inr a) b h = (a, w, refl, h)

-- The same with the state in which it returned.
pub go_on-returned :
    {W E A B : Type 0} (f : A → Action W E B) (r : W × (E ⊎ A)) (w' : W) (b : B)
    → go_on f r ≡ (w', inr b)
    → (a : A) × (w : W) × (r ≡ (w, inr a)) × (f a w ≡ (w', inr b))
unfolding go_on
go_on-returned f (w, inl e) w' b h = absurd (cc (ap (λ x. x.1) h))
go_on-returned f (w, inr a) w' b h = (a, w, refl, h)

-- Actions whose parts return what other actions' parts return, return what those return.
pub go_on-same :
    {W E A B : Type 0} (f g : A → Action W E B) (r r' : W × (E ⊎ A)) (w' : W) (b : B)
    → ((w : W) (a : A) → r ≡ (w, inr a) → r' ≡ (w, inr a))
    → ((a : A) (w : W) → f a w ≡ (w', inr b) → g a w ≡ (w', inr b))
    → go_on f r ≡ (w', inr b)
    → go_on g r' ≡ (w', inr b)
unfolding go_on
go_on-same f g (w, inl e) r' w' b first next h = absurd (cc (ap (λ x. x.1) h))
go_on-same f g (w, inr a) r' w' b first next h = rw (first w a refl) (next a w h)
