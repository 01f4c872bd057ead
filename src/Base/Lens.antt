-- ===== src/Base/Lens.antt =====
-- A part of a storage that a pallet works on: how it is read and written back.
use mathlib.Core.Path.{◌≡◌}

pub record Lens (S P : Type 0) : Type 0 where
  pub get : S → P
  pub set : P → S → S
  pub get-set : (p : P) (s : S) → get (set p s) ≡ p
