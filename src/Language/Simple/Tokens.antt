-- ===== src/Language/Simple/Tokens.antt =====
-- The tokenizer takes apart what was put together with a blank behind each token.
use mathlib.Core.List.{foldl, append_assoc, append-nil}
use ad_graph_db.Base.{
  ℕ, ◌≡◌, refl, sym, ap, ◌∙◌, List, [], ◌∷◌, ◌++◌, Bool, true, false, not, ◌&&◌, all, nat_eq, ◌==◌,
  arith,
}
use ad_graph_db.Core.{Text}
use ad_graph_db.Language.Simple.{Tokenizer, quote, is_blank, emit, scan_char, tokenize}

abbrev pub no_quote : Text → Bool
no_quote = all (λ c. not (c == quote))

abbrev pub is_plain : Text → Bool
is_plain = all (λ c. not (c == quote) && not (is_blank c))

abbrev pub quoted : Text → Text
quoted s = quote ∷ (s ++ quote ∷ [])

-- A word with no quote and no blank, or a quoted text with no quote in it.
pub data IsToken : Text → Type 0 where
  word : {c : ℕ} {s : Text} → is_plain (c ∷ s) ≡ true → IsToken (c ∷ s)
  literal : (s : Text) → no_quote s ≡ true → IsToken (quoted s)

pub data AreTokens : List Text → Type 0 where
  none_left : AreTokens []
  one_more : {t : Text} {ts : List Text} → IsToken t → AreTokens ts → AreTokens (t ∷ ts)

-- A blank behind each token.
unfoldable pub spaced : List Text → Text
spaced [] = []
spaced (t ∷ ts) = t ++ (b' ' ∷ spaced ts)

abbrev at : Bool → Text → List Text → Tokenizer
at in_string current tokens = record { in_string = in_string; current = current; tokens = tokens }

foldl-append :
    (s : Tokenizer) (xs ys : Text)
    → foldl scan_char s (xs ++ ys) ≡ foldl scan_char (foldl scan_char s xs) ys
foldl-append s [] ys = refl
foldl-append s (x ∷ xs) ys = foldl-append (scan_char s x) xs ys

scan-plain :
    (s current : Text) (tokens : List Text)
    → is_plain s ≡ true
    → foldl scan_char (at false current tokens) s ≡ at false (current ++ s) tokens
scan-plain [] current tokens h = ap (λ c. at false c tokens) (sym (append-nil current))
scan-plain (c ∷ s) current tokens h =
    let step : scan_char (at false current tokens) c ≡ at false (current ++ c ∷ []) tokens =
      unfold scan_char in ground (arith, h) in
    rw step (
      scan-plain s (current ++ c ∷ []) tokens (ground (arith, h))
      ∙ ap (λ x. at false x tokens) (append_assoc current (c ∷ []) s))

scan-literal :
    (s current : Text) (tokens : List Text)
    → no_quote s ≡ true
    → foldl scan_char (at true current tokens) s ≡ at true (current ++ s) tokens
scan-literal [] current tokens h = ap (λ c. at true c tokens) (sym (append-nil current))
scan-literal (c ∷ s) current tokens h =
    let step : scan_char (at true current tokens) c ≡ at true (current ++ c ∷ []) tokens =
      unfold scan_char in ground (arith, h) in
    rw step (
      scan-literal s (current ++ c ∷ []) tokens (ground (arith, h))
      ∙ ap (λ x. at true x tokens) (append_assoc current (c ∷ []) s))

scan-token :
    (t : Text) (tokens : List Text)
    → IsToken t
    → foldl scan_char (at false [] tokens) (t ++ b' ' ∷ []) ≡ at false [] (tokens ++ t ∷ [])
scan-token t tokens (word {c} {s} h) =
    foldl-append (at false [] tokens) (c ∷ s) (b' ' ∷ [])
    ∙ ap (λ u. foldl scan_char u (b' ' ∷ [])) (scan-plain (c ∷ s) [] tokens h)
    ∙ unfold scan_char in refl
scan-token t tokens (literal s h) =
    let opened : scan_char (at false [] tokens) quote ≡ at true (quote ∷ []) tokens =
      unfold scan_char in refl in
    ap (λ u. foldl scan_char u ((s ++ quote ∷ []) ++ b' ' ∷ [])) opened
    ∙ (foldl-append (at true (quote ∷ []) tokens) (s ++ quote ∷ []) (b' ' ∷ [])
        ∙ ap (λ u. foldl scan_char u (b' ' ∷ []))
            (foldl-append (at true (quote ∷ []) tokens) s (quote ∷ [])
              ∙ ap (λ u. foldl scan_char u (quote ∷ [])) (scan-literal s (quote ∷ []) tokens h))
        ∙ unfold scan_char in refl)

scan-spaced :
    (ts tokens : List Text)
    → AreTokens ts
    → foldl scan_char (at false [] tokens) (spaced ts) ≡ at false [] (tokens ++ ts)
unfolding spaced
scan-spaced _ tokens none_left = ap (at false []) (sym (append-nil tokens))
scan-spaced _ tokens (one_more {t} {ts} h hs) =
    ap (foldl scan_char (at false [] tokens)) (sym (append_assoc t (b' ' ∷ []) (spaced ts)))
    ∙ foldl-append (at false [] tokens) (t ++ b' ' ∷ []) (spaced ts)
    ∙ ap (λ u. foldl scan_char u (spaced ts)) (scan-token t tokens h)
    ∙ scan-spaced ts (tokens ++ t ∷ []) hs
    ∙ ap (at false []) (append_assoc tokens (t ∷ []) ts)

-- Words without blanks and quotes, and quoted texts, that are put together with a blank behind each, are
-- taken apart into themselves.
pub tokenize-spaced : (ts : List Text) → AreTokens ts → tokenize (spaced ts) ≡ ts
unfolding tokenize
tokenize-spaced ts h = ap (λ u. emit u.current u.tokens) (scan-spaced ts [] h)
