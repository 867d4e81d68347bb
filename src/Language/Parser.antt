-- ===== src/Language/Parser.antt =====
-- A parser takes the tokens that are left: `peek` looks at the first, `next` takes it. The position of
-- the source moves past the end too, which nothing can tell from standing there.
pub mod Shrinks
pub mod Runs
pub mod Between
use ad_graph_db.Base.{ℕ, zero, suc, Bool, true, false, List, [], ◌∷◌}
use ad_graph_db.Core.{
  SyntaxError, end_expecting, syntax_error, deserialization_error, GraphError, Result, ok, err,
}

abbrev pub Parser : Type 0 → Type 0 → Type 0
Parser T A = List T → Result (A × List T)

-- `?` behind a call.
abbrev pub go_on_with :
    {T A B : Type 0} → (A → Parser T B) → Result (A × List T) → Result (B × List T)
go_on_with f (ok (a, rest)) = f a rest
go_on_with f (err e) = err e

infixl 5 ◌>>=◌
abbrev pub ◌>>=◌ : {T A B : Type 0} → Parser T A → (A → Parser T B) → Parser T B
◌>>=◌ m f tokens = go_on_with f (m tokens)

abbrev pub give : {T A : Type 0} → A → Parser T A
give a tokens = ok (a, tokens)

abbrev pub refuse : {T A : Type 0} → SyntaxError → Parser T A
refuse e tokens = err (deserialization_error (syntax_error e))

-- `self.next().ok_or_else(…)`
abbrev pub next_or : {T : Type 0} → SyntaxError → Parser T T
next_or e [] = refuse e []
next_or e (t ∷ tokens) = ok (t, tokens)

-- A loop over conditions, each of which adds to what is built; `more` takes the word between two. It recurs
-- on fuel, of which the number of tokens is enough (Parser/Runs).
unfoldable pub repeat : {T F : Type 0} → (F → Parser T F) → Parser T Bool → ℕ → F → Parser T F
repeat apply more zero filter = refuse (end_expecting [])
repeat apply more (suc fuel) filter = do
  filter' ← apply filter
  again ← more
  elim again [ true ↦ repeat apply more fuel filter' | false ↦ give filter' ]

-- What `parse` returns: the rest of the tokens is dropped.
abbrev pub command_of : {T A : Type 0} → Result (A × List T) → Result A
command_of (ok (a, rest)) = ok a
command_of (err e) = err e
