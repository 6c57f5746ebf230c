-- ===== src/Provenance/Text.antt =====
-- The methods of str that provenance/verify_manifest.py calls: `splitlines`, `strip`, `split`,
-- `startswith`, and the equality and order of texts.
pub mod Laws
use swat_letindex_baseline.Prelude.{
  ℕ, List, [], ◌∷◌, Bool, true, false, not, ◌&&◌, ◌||◌, if◌then◌else◌, ltb, ◌==◌, Text,
  is_empty_text,
}
use swat_letindex_baseline.Sorting.{contains}

-- Where `splitlines` ends a line: the line feed, the vertical tab, the form feed, the carriage return,
-- three separators, and three more of Unicode.
abbrev pub line_breaks : List ℕ
line_breaks = 10 ∷ 11 ∷ 12 ∷ 13 ∷ 28 ∷ 29 ∷ 30 ∷ 133 ∷ 8232 ∷ 8233 ∷ []

-- White space that ends no line: the tab, the space, and the others of Unicode.
abbrev pub other_spaces : List ℕ
other_spaces =
    9 ∷ 31 ∷ 32 ∷ 160 ∷ 5760 ∷ 8192 ∷ 8193 ∷ 8194 ∷ 8195 ∷ 8196 ∷ 8197 ∷ 8198 ∷ 8199 ∷ 8200 ∷ 8201
    ∷ 8202 ∷ 8239 ∷ 8287 ∷ 12288 ∷ []

unfoldable pub is_line_break : ℕ → Bool
unfolding contains
is_line_break c = contains (λ a b. a == b) c line_breaks

unfoldable pub is_space : ℕ → Bool
unfolding is_line_break contains
is_space c = is_line_break c || contains (λ a b. a == b) c other_spaces

-- A code point in front of the first of some pieces of a text.
abbrev pub attach : ℕ → List Text → List Text
attach c [] = (c ∷ []) ∷ []
attach c (piece ∷ pieces) = (c ∷ piece) ∷ pieces

abbrev pub starts_with_feed : Text → Bool
starts_with_feed [] = false
starts_with_feed (c ∷ cs) = c == 10

-- A carriage return and the line feed after it end one line.
unfoldable pub split_lines : Text → List Text
unfolding is_line_break
split_lines [] = []
split_lines (c ∷ cs) =
    let rest = split_lines cs in
    if not (is_line_break c)
    then attach c rest
    else if (c == 13) && starts_with_feed cs
    then rest
    else [] ∷ rest

unfoldable pub strip_left : Text → Text
unfolding is_space
strip_left [] = []
strip_left (c ∷ cs) = let rest = strip_left cs in if is_space c then rest else c ∷ cs

unfoldable pub strip_right : Text → Text
unfolding is_space
strip_right [] = []
strip_right (c ∷ cs) =
    let rest = strip_right cs in if is_space c && is_empty_text rest then [] else c ∷ rest

unfoldable pub strip : Text → Text
unfolding strip_left strip_right
strip text = strip_right (strip_left text)

unfoldable pub starts_word : Text → Bool
unfolding is_space
starts_word [] = false
starts_word (c ∷ cs) = not (is_space c)

-- `text.split()`
unfoldable pub split : Text → List Text
unfolding is_space starts_word
split [] = []
split (c ∷ cs) =
    let rest = split cs in
    if is_space c then rest else if starts_word cs then attach c rest else (c ∷ []) ∷ rest

-- `text.startswith(prefix)`
unfoldable pub starts_with : Text → Text → Bool
starts_with [] text = true
starts_with (c ∷ cs) [] = false
starts_with (c ∷ cs) (d ∷ ds) = (c == d) && starts_with cs ds

unfoldable pub text_eq : Text → Text → Bool
text_eq [] [] = true
text_eq (c ∷ cs) (d ∷ ds) = (c == d) && text_eq cs ds
text_eq _ _ = false

-- By code points, as Python orders texts.
unfoldable pub text_lt : Text → Text → Bool
text_lt text [] = false
text_lt [] (d ∷ ds) = true
text_lt (c ∷ cs) (d ∷ ds) = ltb c d || ((c == d) && text_lt cs ds)
