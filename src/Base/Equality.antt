-- ===== src/Base/Equality.antt =====
-- Rust's `Eq`: a Boolean equivalence, which need not be identity.
use mathlib.Core.Path.{◌≡◌}
use mathlib.Core.Bool.{Bool, true}

pub record Eq {ℓ} (A : Type ℓ) : Type ℓ where
  pub beq : A → A → Bool
  pub beq_refl : (a : A) → beq a a ≡ true
  pub beq_symm : (a b : A) → beq a b ≡ true → beq b a ≡ true
  pub beq_trans : (a b c : A) → beq a b ≡ true → beq b c ≡ true → beq a c ≡ true
