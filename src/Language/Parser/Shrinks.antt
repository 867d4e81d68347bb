-- ===== src/Language/Parser/Shrinks.antt =====
-- Parsers that leave no more tokens than they were given.
use ad_graph_db.Base.{ℕ, ◌≤◌, ◌≡◌, List, [], ◌∷◌, length, arith}
use ad_graph_db.Core.{SyntaxError, end_expecting, Result, ok, err}
use ad_graph_db.Language.Parser.{Parser, go_on_with, ◌>>=◌, give, refuse, next_or}

module _ {T : Type 0} where
  -- What was parsed leaves at most `n` tokens.
  abbrev pub LeavesAtMost : {A : Type 0} → ℕ → Result (A × List T) → Type 0
  LeavesAtMost n (ok (a, rest)) = length rest ≤ n
  LeavesAtMost n (err e) = Unit

  abbrev pub Shrinks : {A : Type 0} → Parser T A → Type 0
  Shrinks p = (n : ℕ) (tokens : List T) → length tokens ≤ n → LeavesAtMost n (p tokens)

  pub next_or-Shrinks : (e : SyntaxError) → Shrinks (next_or {T = T} e)
  next_or-Shrinks e n [] le = tt
  next_or-Shrinks e n (t ∷ tokens) le = omega (arith, le)

  go_on_with-Shrinks :
      {A B : Type 0} (f : A → Parser T B) (n : ℕ) (r : Result (A × List T))
      → ((a : A) → Shrinks (f a))
      → LeavesAtMost n r
      → LeavesAtMost n (go_on_with f r)
  go_on_with-Shrinks f n (ok (a, rest)) h le = h a n rest le
  go_on_with-Shrinks f n (err e) h le = tt

  pub bind-Shrinks :
      {A B : Type 0} (p : Parser T A) (f : A → Parser T B)
      → Shrinks p
      → ((a : A) → Shrinks (f a))
      → Shrinks (p >>= f)
  bind-Shrinks p f h k n tokens le = go_on_with-Shrinks f n (p tokens) k (h n tokens le)

  pub give-Shrinks :
      {A B : Type 0} (p : Parser T A) (f : A → B) → Shrinks p → Shrinks (p >>= λ a. give (f a))
  give-Shrinks p f h = bind-Shrinks p (λ a. give (f a)) h λ a n tokens le. le

  -- One round takes a token, and without one refuses.
  pub record IsRound {F : Type 0} (apply : F → Parser T F) : Type 0 where
    pub at_end : (f : F) → apply f [] ≡ refuse (end_expecting []) []
    pub takes :
        (f : F) (t : T) (tokens : List T) → LeavesAtMost (length tokens) (apply f (t ∷ tokens))
