-- ===== src/Entropy/Floats.antt =====
-- The arithmetic of `f64`, which the machine does: a type with its operations, and no laws.
use nocap_crypt.Base.{ℕ, Bool, List, [], ◌∷◌}

pub record Floats : Type 1 where
  pub F : Type 0
  -- `as f64`, and the literals that are whole numbers
  pub of_nat : ℕ → F
  pub add : F → F → F
  pub sub : F → F → F
  pub mul : F → F → F
  pub div : F → F → F
  pub neg : F → F
  pub log2 : F → F
  pub sqrt : F → F
  pub lt : F → F → Bool
  pub le : F → F → Bool
  -- where `sum` starts
  pub sum_start : F
  -- the literal 1.645
  pub z_95 : F

-- `Iterator::sum`
abbrev pub sum_from : (fl : Floats) → fl.F → List fl.F → fl.F
sum_from fl acc [] = acc
sum_from fl acc (x ∷ xs) = sum_from fl (fl.add acc x) xs
