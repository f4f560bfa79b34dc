-- ===== src/Prelude/Iff.antt =====
-- Equivalences between statements.
use mathlib.Core.Logic.{◌↔◌, ◌⊎◌, inl, inr}

module _ {ℓ} {A A' B E W : Type ℓ} where
  -- A whole in two parts, one of which gains an element.
  pub iff_gain_left : A' ↔ (E ⊎ A) → W ↔ (A ⊎ B) → (A' ⊎ B) ↔ (E ⊎ W)
  iff_gain_left f g = (there, back)
    where
      spread : E ⊎ A → E ⊎ W
      spread (inl e) = inl e
      spread (inr a) = inr (g.1 (inl a))

      there : A' ⊎ B → E ⊎ W
      there (inl a) = spread (f.0 a)
      there (inr b) = inr (g.1 (inr b))

      place : A ⊎ B → A' ⊎ B
      place (inl a) = inl (f.1 (inr a))
      place (inr b) = inr b

      back : E ⊎ W → A' ⊎ B
      back (inl e) = inl (f.1 (inl e))
      back (inr w) = place (g.0 w)

module _ {ℓ} {A B B' E W : Type ℓ} where
  pub iff_gain_right : B' ↔ (E ⊎ B) → W ↔ (A ⊎ B) → (A ⊎ B') ↔ (E ⊎ W)
  iff_gain_right f g = (there, back)
    where
      spread : E ⊎ B → E ⊎ W
      spread (inl e) = inl e
      spread (inr b) = inr (g.1 (inr b))

      there : A ⊎ B' → E ⊎ W
      there (inl a) = inr (g.1 (inl a))
      there (inr b) = spread (f.0 b)

      place : A ⊎ B → A ⊎ B'
      place (inl a) = inl a
      place (inr b) = inr (f.1 (inr b))

      back : E ⊎ W → A ⊎ B'
      back (inl e) = inr (f.1 (inl e))
      back (inr w) = place (g.0 w)
