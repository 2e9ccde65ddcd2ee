-- ===== src/Text.antt =====
-- Python's `str` as a list of code points, and the operations of `str` that the program uses:
-- `==`, `in` a set of words, `lower`, `strip`, `split`, `startswith`, and the character classes of
-- `re`. What depends on the Unicode database is the parameter `Unicode`.
pub mod Tokens
use Prim.Native.Char.{code}
use devops_agent.Prelude.{
  ℕ, ◌+◌, ◌≤◌, ◌<◌, String, ◌≡◌, refl, ap, ◌↔◌, Bool, true, false, ◌&&◌, ◌||◌, List, [], ◌∷◌, ◌++◌,
  arith, leb, ◌==◌, if◌then◌else◌, any, all, All, and-eq-true, or-eq-true, inl, inr, ==_iff,
  ==_refl,
}

abbrev pub Text : Type 0
Text = List ℕ

-- a literal of the source
abbrev pub codes : String → Text
codes String.[] = []
codes (String.◌∷◌ c s) = code c ∷ codes s

unfoldable pub text_eq : Text → Text → Bool
text_eq [] [] = true
text_eq [] (y ∷ ys) = false
text_eq (x ∷ xs) [] = false
text_eq (x ∷ xs) (y ∷ ys) = (x == y) && text_eq xs ys

pub text_eq_refl : (s : Text) → text_eq s s ≡ true
unfolding text_eq
text_eq_refl [] = refl
text_eq_refl (x ∷ xs) = ground (arith, text_eq_refl xs)

pub text_eq→eq : (s t : Text) → text_eq s t ≡ true → s ≡ t
unfolding text_eq
text_eq→eq [] [] h = refl
text_eq→eq [] (y ∷ ys) h = cc
text_eq→eq (x ∷ xs) [] h = cc
text_eq→eq (x ∷ xs) (y ∷ ys) h = ground (arith, text_eq→eq xs ys)

-- `word in {…}`
unfoldable pub is_in : Text → List Text → Bool
unfolding any
is_in w ws = any (text_eq w) ws

-- what holds of each word of a set holds of a text in the set
pub is_in-All {ℓ} :
    (P : Text → Type ℓ) (w : Text) (ws : List Text) → All P ws → is_in w ws ≡ true → P w
unfolding is_in
is_in-All P w [] h m = cc
is_in-All P w (v ∷ ws) h m = elim (or-eq-true _ _ m) [
  | inl e ↦ rw (text_eq→eq w v e) h.0
  | inr later ↦ is_in-All P w ws h.1 later
]

pub is_in-all :
    (p : Text → Bool) (w : Text) (ws : List Text) → all p ws ≡ true → is_in w ws ≡ true → p w ≡ true
unfolding is_in all
is_in-all p w [] h m = cc
is_in-all p w (v ∷ ws) h m =
    let (here, there) = and-eq-true _ _ h in
    elim (or-eq-true _ _ m) [
      | inl e ↦ rw (text_eq→eq w v e) here
      | inr later ↦ is_in-all p w ws there later
    ]

-- `text.startswith(prefix)`
unfoldable pub starts_with : Text → Text → Bool
starts_with [] s = true
starts_with (c ∷ p) [] = false
starts_with (c ∷ p) (x ∷ s) = (c == x) && starts_with p s

pub starts_with-append : (p s : Text) → starts_with p (p ++ s) ≡ true
unfolding starts_with
starts_with-append [] s = refl
starts_with-append (c ∷ p) s = rw (==_refl c) (starts_with-append p s)

-- `\s` and `str.isspace` on one code point
unfoldable pub is_space : ℕ → Bool
is_space c =
    (leb 9 c && leb c 13)
    || (leb 28 c && leb c 32)
    || (c == 0x85)
    || (c == 0xa0)
    || (c == 0x1680)
    || (leb 0x2000 c && leb c 0x200a)
    || (c == 0x2028)
    || (c == 0x2029)
    || (c == 0x202f)
    || (c == 0x205f)
    || (c == 0x3000)

unfoldable pub is_lower : ℕ → Bool
is_lower c = leb b'a' c && leb c b'z'

unfoldable pub is_upper : ℕ → Bool
is_upper c = leb b'A' c && leb c b'Z'

unfoldable pub is_digit : ℕ → Bool
is_digit c = leb b'0' c && leb c b'9'

-- `[a-zA-Z0-9_]`
unfoldable pub ascii_word : ℕ → Bool
unfolding is_lower is_upper is_digit
ascii_word c = is_lower c || is_upper c || is_digit c || (c == b'_')

-- What the program reads of the Unicode database: `\w` of `re`, and `str.lower` of one code point,
-- both as documented on ASCII.
pub record Unicode : Type 0 where
  pub is_word : ℕ → Bool
  pub lower : ℕ → Text
  pub is_word-ascii : (c : ℕ) → c < 128 → is_word c ≡ ascii_word c
  pub lower-ascii : (c : ℕ) → c < 128 → lower c ≡ (if is_upper c then c + 32 else c) ∷ []

unfoldable pub lower_text : Unicode → Text → Text
lower_text u [] = []
lower_text u (c ∷ s) = u.lower c ++ lower_text u s

unfoldable pub drop_spaces : Text → Text
drop_spaces [] = []
drop_spaces (c ∷ s) = let rest = drop_spaces s in if is_space c then rest else c ∷ s

all_space : Text → Bool
all_space [] = true
all_space (c ∷ s) = is_space c && all_space s

drop_trailing : Text → Text
unfolding all_space
drop_trailing [] = []
drop_trailing (c ∷ s) = let rest = drop_trailing s in if all_space (c ∷ s) then [] else c ∷ rest

-- `text.strip()`
unfoldable pub strip : Text → Text
unfolding drop_spaces drop_trailing
strip s = drop_trailing (drop_spaces s)

-- the word being read, if any
flush : Text → List Text
flush [] = []
flush (c ∷ w) = (c ∷ w) ∷ []

token_step : Text → ℕ → List Text × Text
token_step word c = if is_space c then (flush word, []) else ([], word ++ c ∷ [])

tokens_from : Text → Text → List Text
unfolding token_step flush
tokens_from word [] = flush word
tokens_from word (c ∷ s) = let (out, next) = token_step word c in out ++ tokens_from next s

-- `text.split()`
unfoldable pub tokens : Text → List Text
unfolding tokens_from
tokens s = tokens_from [] s

part_step : ℕ → Text → ℕ → List Text × Text
part_step sep part c = if c == sep then (part ∷ [], []) else ([], part ++ c ∷ [])

parts_from : ℕ → Text → Text → List Text
unfolding part_step
parts_from sep part [] = part ∷ []
parts_from sep part (c ∷ s) = let (out, next) = part_step sep part c in out ++ parts_from sep next s

-- `text.split(sep)` for a separator of one code point
unfoldable pub split_on : ℕ → Text → List Text
unfolding parts_from
split_on sep s = parts_from sep [] s

-- `word in text`, for texts
unfoldable pub found_in : Text → Text → Bool
unfolding starts_with
found_in word [] = starts_with word []
found_in word (c ∷ s) = starts_with word (c ∷ s) || found_in word s

-- a code point that ends a line for `str.splitlines`
unfoldable pub is_line_break : ℕ → Bool
is_line_break c =
    (leb 10 c && leb c 13)
    || (leb 28 c && leb c 30)
    || (c == 0x85)
    || (c == 0x2028)
    || (c == 0x2029)

-- the newline of a `\r\n` is taken with the `\r` before it; `after_return` says that one was read
line_step : Bool → Text → ℕ → List Text × Text
unfolding is_line_break
line_step after_return line c =
    if after_return && (c == 10)
    then ([], line)
    else (if is_line_break c then (line ∷ [], []) else ([], line ++ c ∷ []))

lines_from : Bool → Text → Text → List Text
unfolding line_step flush
lines_from after_return line [] = flush line
lines_from after_return line (c ∷ s) =
    let (out, next) = line_step after_return line c in out ++ lines_from (c == 13) next s

-- `text.splitlines()`
unfoldable pub split_lines : Text → List Text
unfolding lines_from
split_lines s = lines_from false [] s
