-- ===== src/Core/Float.antt =====
-- IEEE-754 arithmetic on `f64` bit patterns is the processor's: the operations that the program
-- calls are parameters. What a theorem needs of them is a hypothesis there.
use ad_graph_db.Base.{ℕ, Bool, true, ◌≡◌}

pub record FloatOps : Type 0 where
  pub add : ℕ → ℕ → ℕ
  pub lt : ℕ → ℕ → Bool
  pub le : ℕ → ℕ → Bool
  pub eq : ℕ → ℕ → Bool
  -- (lhs - rhs).abs() < f64::EPSILON, and the same with >=
  pub near : ℕ → ℕ → Bool
  pub far : ℕ → ℕ → Bool
  pub is_nan : ℕ → Bool
  -- `i as f64` at the pattern of an `i64`
  pub of_i64 : ℕ → ℕ
  -- (n as f64).log2().ceil() as usize
  pub log2_ceil : ℕ → ℕ

-- What IEEE-754 says of `==`: it is symmetric, and equal operands compare alike.
pub record IsIeee (f : FloatOps) : Type 0 where
  pub eq_sym : (a b : ℕ) → f.eq a b ≡ true → f.eq b a ≡ true
  pub near_cong : (a b c : ℕ) → f.eq b c ≡ true → f.near a b ≡ f.near a c
  pub far_cong : (a b c : ℕ) → f.eq b c ≡ true → f.far a b ≡ f.far a c
  pub lt_cong : (a b c : ℕ) → f.eq b c ≡ true → f.lt a b ≡ f.lt a c
  pub le_cong : (a b c : ℕ) → f.eq b c ≡ true → f.le a b ≡ f.le a c
  pub gt_cong : (a b c : ℕ) → f.eq b c ≡ true → f.lt b a ≡ f.lt c a
  pub ge_cong : (a b c : ℕ) → f.eq b c ≡ true → f.le b a ≡ f.le c a
  pub eq_cong : (a b c : ℕ) → f.eq b c ≡ true → f.eq a b ≡ f.eq a c
