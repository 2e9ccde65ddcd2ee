-- ===== src/Regex.antt =====
-- The part of Python's `re` that the program's patterns use, as a backtracking matcher over a
-- continuation. A character class is a test; `$` and the end of a search are continuations.
pub mod Language
pub mod Repeat
use devops_agent.Prelude.{ℕ, zero, suc, ◌+◌, Bool, true, false, ◌&&◌, ◌||◌, not, [], ◌∷◌, ◌==◌}
use devops_agent.Text.{Text, is_space}

pub data Regex : Type 0 where
  empty : Regex
  -- one code point of a class
  cls : (ℕ → Bool) → Regex
  seq : Regex → Regex → Regex
  alt : Regex → Regex → Regex
  -- `r{0,n}`
  upto : ℕ → Regex → Regex
  -- `c*`, for a class
  star : (ℕ → Bool) → Regex
  -- `(?!c)`, for a class
  not_ahead : (ℕ → Bool) → Regex

unfoldable pub next_is : (ℕ → Bool) → Text → Bool
next_is p [] = false
next_is p (c ∷ s) = p c

unfoldable pub match_cls : (ℕ → Bool) → (Text → Bool) → Text → Bool
match_cls p k [] = false
match_cls p k (c ∷ s) = p c && k s

unfoldable pub match_star : (ℕ → Bool) → (Text → Bool) → Text → Bool
match_star p k [] = k []
match_star p k (c ∷ s) = let rest = match_star p k s in k (c ∷ s) || (p c && rest)

unfoldable pub match_upto : ((Text → Bool) → Text → Bool) → ℕ → (Text → Bool) → Text → Bool
match_upto m zero k s = k s
match_upto m (suc n) k s = k s || m (match_upto m n k) s

-- `r` matches a prefix of the text after which the continuation accepts
unfoldable pub match : Regex → (Text → Bool) → Text → Bool
unfolding match_cls match_star match_upto next_is
match empty k s = k s
match (cls p) k s = match_cls p k s
match (seq a b) k s = match a (match b k) s
match (alt a b) k s = match a k s || match b k s
match (upto n r) k s = match_upto (match r) n k s
match (star p) k s = match_star p k s
match (not_ahead p) k s = not (next_is p s) && k s

-- `$`: the end, or a newline at the end
unfoldable pub at_dollar : Text → Bool
at_dollar [] = true
at_dollar (c ∷ []) = c == 10
at_dollar (c ∷ d ∷ s) = false

abbrev pub anything : Text → Bool
anything s = true

-- `re.match("^r$", s)`
unfoldable pub full_match : Regex → Text → Bool
unfolding match at_dollar
full_match r s = match r at_dollar s

-- `re.search(r, s)`
unfoldable pub search_in : Regex → Text → Bool
unfolding match
search_in r [] = match r anything []
search_in r (c ∷ s) = match r anything (c ∷ s) || search_in r s

-- `c`
abbrev pub chr : ℕ → Regex
chr c = cls (λ x. c == x)

-- a literal text
unfoldable pub lits : Text → Regex
lits [] = empty
lits (c ∷ s) = seq (chr c) (lits s)

-- `re.IGNORECASE` at a lower-case letter: its two cases, and the four other code points that fold
-- to one (U+0130 and U+0131 to i, U+212A to k, U+017F to s)
unfoldable pub folds_to : ℕ → ℕ → Bool
folds_to c x =
    (c == x)
    || (c == x + 32)
    || ((c == b'i') && ((x == 0x130) || (x == 0x131)))
    || ((c == b'k') && (x == 0x212a))
    || ((c == b's') && (x == 0x17f))

unfoldable pub word_nocase : Text → Regex
unfolding folds_to
word_nocase [] = empty
word_nocase (c ∷ s) = seq (cls (folds_to c)) (word_nocase s)

-- `\s`, `\s*` and `\s+`
abbrev pub space : Regex
space = cls is_space

abbrev pub spaces : Regex
spaces = star is_space

abbrev pub spaces1 : Regex
spaces1 = seq space spaces

-- `c{1,n}` for a class
abbrev pub repeat1 : (ℕ → Bool) → ℕ → Regex
repeat1 p n = seq (cls p) (upto n (cls p))
