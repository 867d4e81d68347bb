-- ===== src/Language/Parser/Runs.antt =====
-- A loop over conditions ends: it makes a finite run of rounds.
use ad_graph_db.Base.{
  ℕ, zero, suc, ◌<◌, ◌≤◌, ◌≡◌, refl, List, [], ◌∷◌, Bool, true, false, length, arith,
}
use ad_graph_db.Core.{
  GraphError, end_expecting, syntax_error, deserialization_error, Result, ok, err,
}
use ad_graph_db.Language.Parser.{Parser, ◌>>=◌, go_on_with, give, repeat}
use ad_graph_db.Language.Parser.Shrinks.{LeavesAtMost, Shrinks, IsRound}

module _ {T F : Type 0} (apply : F → Parser T F) (more : Parser T Bool) where
  -- A finite run of the loop, from what is built and the tokens that are left to its result: a round or the word
  -- behind it is refused, or there is no more word, or behind the word comes the run on what that leaves.
  pub data Runs : F → List T → Result (F × List T) → Type 0 where
    refused :
        (f : F) (tokens : List T) (e : GraphError) → apply f tokens ≡ err e → Runs f tokens (err e)
    no_word :
        (f g : F) (tokens rest : List T) (e : GraphError)
        → apply f tokens ≡ ok (g, rest)
        → more rest ≡ err e
        → Runs f tokens (err e)
    last :
        (f g : F) (tokens rest left : List T)
        → apply f tokens ≡ ok (g, rest)
        → more rest ≡ ok (false, left)
        → Runs f tokens (ok (g, left))
    again :
        (f g : F) (tokens rest left : List T) (r : Result (F × List T))
        → apply f tokens ≡ ok (g, rest)
        → more rest ≡ ok (true, left)
        → Runs g left r
        → Runs f tokens r

  -- Behind a word, the run on the tokens that it leaves.
  abbrev Next : ℕ → List T → Type 0
  Next n tokens =
      (g : F) (left : List T)
      → length left ≤ length tokens
      → Runs g left (repeat apply more n g left)

  behind_word :
      (n : ℕ) (f g : F) (t : T) (tokens rest : List T) (r : Result (Bool × List T))
      → apply f (t ∷ tokens) ≡ ok (g, rest)
      → more rest ≡ r
      → LeavesAtMost (length tokens) r
      → Next n tokens
      → Runs f
          (t ∷ tokens)
          (go_on_with (λ again. elim again [ true ↦ repeat apply more n g | false ↦ give g ]) r)
  behind_word n f g t tokens rest (err e) h word le next = no_word f g (t ∷ tokens) rest e h word
  behind_word n f g t tokens rest (ok (false, left)) h word le next =
      last f g (t ∷ tokens) rest left h word
  behind_word n f g t tokens rest (ok (true, left)) h word le next =
      again f g (t ∷ tokens) rest left (repeat apply more n g left) h word (next g left le)

  behind_round :
      (n : ℕ) (f : F) (t : T) (tokens : List T) (r : Result (F × List T))
      → apply f (t ∷ tokens) ≡ r
      → LeavesAtMost (length tokens) r
      → Shrinks more
      → Next n tokens
      → Runs f (t ∷ tokens) (
          go_on_with
            (λ g. more >>= λ again. elim again [ true ↦ repeat apply more n g | false ↦ give g ])
            r)
  behind_round n f t tokens (err e) h le small next = refused f (t ∷ tokens) e h
  behind_round n f t tokens (ok (g, rest)) h le small next =
      behind_word n f g t tokens rest (more rest) h refl (small (length tokens) rest le) next

  -- The loop makes a finite run, and on any fuel above the number of tokens returns what the run does.
  pub repeat-Runs :
      (n : ℕ) (f : F) (tokens : List T)
      → IsRound apply
      → Shrinks more
      → length tokens < n
      → Runs f tokens (repeat apply more n f tokens)
  unfolding repeat
  repeat-Runs zero f tokens round small le = absurd (omega (arith, le))
  repeat-Runs (suc n) f [] round small le =
      rw (round.at_end f)
        (refused f [] (deserialization_error (syntax_error (end_expecting []))) (round.at_end f))
  repeat-Runs (suc n) f (t ∷ tokens) round small le =
      behind_round n f t tokens (apply f (t ∷ tokens)) refl (round.takes f t tokens) small
        λ g left less. repeat-Runs n g left round small (omega (arith, le, less))
