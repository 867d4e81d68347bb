-- ===== src/Language/Parser/Between.antt =====
-- Conditions with a word between them, and that the loop over them takes all.
use ad_graph_db.Base.{
  ℕ, zero, suc, ◌<◌, ◌≤◌, ◌≡◌, refl, List, [], ◌∷◌, ◌++◌, Bool, true, false, length, length-append,
  arith,
}
use ad_graph_db.Core.{ok}
use ad_graph_db.Language.Parser.{Parser, repeat}

-- The word `sep` before each, and `rest` behind the last.
abbrev pub between : {T : Type 0} → T → List (List T) → List T → List T
between sep [] rest = rest
between sep (c ∷ cs) rest = sep ∷ (c ++ between sep cs rest)

-- `apply` takes what is built from `f` to `g` by these conditions.
pub data Takes {T F : Type 0} (apply : F → Parser T F) : F → List (List T) → F → Type 0 where
  done : {f : F} → Takes apply f [] f
  one :
      {f g h : F} {c : List T} {cs : List (List T)}
      → ((rest : List T) → apply f (c ++ rest) ≡ ok (g, rest))
      → Takes apply g cs h
      → Takes apply f (c ∷ cs) h

module _ {T : Type 0} where
  length-between :
      (sep : T) (cs : List (List T)) (rest : List T) → length cs ≤ length (between sep cs rest)
  length-between sep [] rest = omega arith
  length-between sep (c ∷ cs) rest =
      omega (arith, length-between sep cs rest, length-append c (between sep cs rest))

  -- There are as many tokens as conditions.
  pub length-append-between :
      (sep : T) (c : List T) (cs : List (List T)) (rest : List T)
      → length cs ≤ length (c ++ between sep cs rest)
  length-append-between sep c cs rest =
      omega (arith, length-between sep cs rest, length-append c (between sep cs rest))

  module _ {F : Type 0} (apply : F → Parser T F) (more : Parser T Bool) (sep : T)
      (rest : List T) where
    -- The loop goes on at the word between, and stops before `rest`.
    pub repeat-between :
        (fuel : ℕ) (f g : F) (c : List T) (cs : List (List T))
        → ((tokens : List T) → more (sep ∷ tokens) ≡ ok (true, tokens))
        → more rest ≡ ok (false, rest)
        → Takes apply f (c ∷ cs) g
        → length cs < fuel
        → repeat apply more fuel f (c ++ between sep cs rest) ≡ ok (g, rest)
    unfolding repeat
    repeat-between zero f g c cs on off h le = absurd (omega (arith, le))
    repeat-between (suc fuel) f g c [] on off (one step done) le = rw (step rest) (rw off refl)
    repeat-between (suc fuel) f g c (d ∷ cs) on off (one step h) le =
        rw (step (sep ∷ (d ++ between sep cs rest))) (
          rw (on (d ++ between sep cs rest))
            (repeat-between fuel _ g d cs on off h (omega (arith, le))))
