-- ===== src/Language/Cypher/Lexer/Characters.antt =====
-- The characters by which the lexer tells tokens apart.
use ad_graph_db.Base.{
  ℕ, ◌≡◌, refl, [], ◌∷◌, ◌++◌, Bool, true, false, ◌||◌, none, all, ltb, nat_eq, list_eq, ◌==◌,
  if◌then◌else◌, arith,
}
use ad_graph_db.Language.Chars.{is_digit}
use ad_graph_db.Language.Cypher.Print.{is_name_char}
use ad_graph_db.Language.Cypher.Lexer.{
  Token, Chars, is_letter, take_while, drop_while, operator, one_char, starts_number,
}

-- Up to the first character that is not meant.
pub take-while_append :
    (p : ℕ → Bool) (s : Chars) (b : ℕ) (rest : Chars)
    → all p s ≡ true
    → p b ≡ false
    → take_while p (s ++ b ∷ rest) ≡ s
take-while_append p [] b rest h stop = rw stop refl
take-while_append p (c ∷ s) b rest h stop = ground (arith, h, stop, take-while_append p s b rest)

pub drop-while_append :
    (p : ℕ → Bool) (s : Chars) (b : ℕ) (rest : Chars)
    → all p s ≡ true
    → p b ≡ false
    → drop_while p (s ++ b ∷ rest) ≡ b ∷ rest
drop-while_append p [] b rest h stop = rw stop refl
drop-while_append p (c ∷ s) b rest h stop = ground (arith, h, stop, drop-while_append p s b rest)

pub all-weaken :
    (p q : ℕ → Bool) (s : Chars)
    → ((c : ℕ) → p c ≡ true → q c ≡ true)
    → all p s ≡ true
    → all q s ≡ true
all-weaken p q [] imp h = refl
all-weaken p q (c ∷ s) imp h = ground (arith, h, imp c, all-weaken p q s imp)

pub all-append :
    (p : ℕ → Bool) (s t : Chars) → all p s ≡ true → all p t ≡ true → all p (s ++ t) ≡ true
all-append p [] t h k = k
all-append p (c ∷ s) t h k = ground (arith, h, all-append p s t)

pub is_name_char-IsAscii : (c : ℕ) → is_name_char c ≡ true → ltb c 128 ≡ true
is_name_char-IsAscii c h = ground (arith, h)

pub is_digit-IsName : (c : ℕ) → is_digit c ≡ true → is_name_char c ≡ true
is_digit-IsName c h = ground (arith, h)

pub letter-operator :
    (c : ℕ) (cs : Chars) → (is_letter c || c == b'_') ≡ true → operator c cs ≡ none
letter-operator c [] h = refl
letter-operator c (d ∷ cs) h = ground (arith, h)

pub letter-starts_number :
    (c : ℕ) (cs : Chars) → (is_letter c || c == b'_') ≡ true → starts_number c cs ≡ false
letter-starts_number c [] h = ground (arith, h)
letter-starts_number c (d ∷ cs) h = ground (arith, h)

pub digit-operator : (c : ℕ) (cs : Chars) → is_digit c ≡ true → operator c cs ≡ none
digit-operator c [] h = refl
digit-operator c (d ∷ cs) h = ground (arith, h)

pub digit-starts_number : (c : ℕ) (cs : Chars) → is_digit c ≡ true → starts_number c cs ≡ true
digit-starts_number c [] h = h
digit-starts_number c (d ∷ cs) h = rw h refl

pub letter-one_char : (c : ℕ) → (is_letter c || c == b'_') ≡ true → one_char c ≡ none
letter-one_char c h = ground (arith, h)

pub digit-one_char : (c : ℕ) → is_digit c ≡ true → one_char c ≡ none
digit-one_char c h = ground (arith, h)

pub none_of :
    (a b c : Bool) (x y z w : Token)
    → (a || (b || c)) ≡ false
    → (if a then x else if b then y else if c then z else w) ≡ w
none_of true b c x y z w h = ground (arith, h)
none_of false b c x y z w h = ground (arith, h)
