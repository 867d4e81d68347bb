-- ===== src/Storage/JsonFile/Lines.antt =====
-- The lines that a log is written as, and that they are read back.
use mathlib.Core.List.{append-nil, append_assoc}
use ad_graph_db.Base.{
  ℕ, ◌+◌, ◌≡◌, refl, sym, ap, ◌∙◌, List, [], ◌∷◌, ◌++◌, true, false, not, ◌&&◌, some, all, nat_eq,
  ◌==◌, arith,
}
use ad_graph_db.Core.{Text, ok}
use ad_graph_db.Storage.JsonFile.{
  WalRecord, JsonOps, Maps, apply_record, strip_return, lines_from, record_line, record_lines,
  replay_line, replay_lines,
}

-- What serde_json promises of a record that it can write and read back: its text is one line of UTF-8
-- without control characters, and is not blank.
pub record IsJson (json : JsonOps) (r : WalRecord) : Type 0 where
  pub line : Text
  pub written : json.to_string r ≡ some line
  pub read : json.from_str line ≡ some r
  pub utf8 : json.is_utf8 line ≡ true
  pub visible : json.is_blank line ≡ false
  pub one_line : all (λ c. not (c == b'\n') && not (c == b'\r')) line ≡ true

abbrev pub AreJson : JsonOps → List WalRecord → Type 0
AreJson json [] = Unit
AreJson json (r ∷ rs) = IsJson json r × AreJson json rs

abbrev pub apply_all : List WalRecord → Maps → Maps
apply_all [] m = m
apply_all (r ∷ rs) m = apply_all rs (apply_record r m)

pub apply_all-append :
    (xs ys : List WalRecord) (m : Maps) → apply_all (xs ++ ys) m ≡ apply_all ys (apply_all xs m)
apply_all-append [] ys m = refl
apply_all-append (x ∷ xs) ys m = apply_all-append xs ys (apply_record x m)

strip_return-plain :
    (s : Text) → all (λ c. not (c == b'\n') && not (c == b'\r')) s ≡ true → strip_return s ≡ s
unfolding strip_return
strip_return-plain [] h = refl
strip_return-plain (c ∷ []) h = ground (arith, h)
strip_return-plain (c ∷ d ∷ s) h = ap (◌∷◌ c) (strip_return-plain (d ∷ s) (ground (arith, h)))

lines_from-line :
    (s current rest : Text)
    → all (λ c. not (c == b'\n') && not (c == b'\r')) s ≡ true
    → lines_from current (s ++ b'\n' ∷ rest) ≡ strip_return (current ++ s) ∷ lines_from [] rest
unfolding lines_from
lines_from-line [] current rest h =
    ap (λ l. strip_return l ∷ lines_from [] rest) (sym (append-nil current))
lines_from-line (c ∷ s) current rest h =
    let inner : (c == b'\n') ≡ false = ground (arith, h) in
    rw inner (
      lines_from-line s (current ++ c ∷ []) rest (ground (arith, h))
      ∙ ap (λ l. strip_return l ∷ lines_from [] rest) (append_assoc current (c ∷ []) s))

module _ (json : JsonOps) where
  -- The bytes of a log.
  abbrev pub log_bytes : (rs : List WalRecord) → AreJson json rs → Text
  log_bytes [] h = []
  log_bytes (r ∷ rs) (h, hs) = (h.line ++ b'\n' ∷ []) ++ log_bytes rs hs

  pub record_line-IsJson :
      (r : WalRecord) (h : IsJson json r) → record_line json r ≡ ok (h.line ++ b'\n' ∷ [])
  unfolding record_line
  record_line-IsJson r h = rw h.written refl

  pub record_lines-AreJson :
      (rs : List WalRecord) (h : AreJson json rs) → record_lines json rs ≡ ok (log_bytes rs h)
  unfolding record_lines
  record_lines-AreJson [] h = refl
  record_lines-AreJson (r ∷ rs) (h, hs) =
      rw (record_line-IsJson r h, record_lines-AreJson rs hs) refl

  replay_line-IsJson :
      (number : ℕ) (r : WalRecord) (m : Maps) (h : IsJson json r)
      → replay_line json number h.line m ≡ ok (apply_record r m)
  unfolding replay_line
  replay_line-IsJson number r m h = rw (h.utf8, h.visible, h.read) refl

  -- Reading the bytes of a log applies its records in order.
  pub replay_lines-log_bytes :
      (number : ℕ) (rs : List WalRecord) (m : Maps) (h : AreJson json rs)
      → replay_lines json number (lines_from [] (log_bytes rs h)) m ≡ ok (apply_all rs m)
  unfolding replay_lines
  replay_lines-log_bytes number [] m h = unfold lines_from in refl
  replay_lines-log_bytes number (r ∷ rs) m (h, hs) =
      rw (append_assoc h.line (b'\n' ∷ []) (log_bytes rs hs)) (
        rw
          (
            lines_from-line h.line [] (log_bytes rs hs) h.one_line,
            strip_return-plain h.line h.one_line,
          )
          (rw (replay_line-IsJson (number + 1) r m h)
            (replay_lines-log_bytes (number + 1) rs (apply_record r m) hs)))
