-- ===== src/Provenance/Text/Laws.antt =====
-- What the methods of str do with words and the white space between them.
use mathlib.Core.List.{append-nil}
use swat_letindex_baseline.Prelude.{
  ℕ, Bool, ◌∙◌, ◌≡◌, refl, ap, sym, List, [], ◌∷◌, ◌++◌, true, false, not, ◌&&◌, ◌==◌, arith, Text,
  is_empty_text, All, ==_iff, ==_refl, inl, inr, Bool-cases,
}
use swat_letindex_baseline.Sorting.{contains}
use swat_letindex_baseline.Provenance.Text.{
  is_line_break, is_space, attach, split_lines, strip_left, strip_right, strip, starts_word, split,
  text_eq,
}

-- No white space.
abbrev pub IsSolid : Text → Type 0
IsSolid [] = Unit
IsSolid (c ∷ cs) = (is_space c ≡ false) × IsSolid cs

-- A word that `split` can give: not empty, without white space.
abbrev pub IsWord : Text → Type 0
IsWord text = (is_empty_text text ≡ false) × IsSolid text

-- No end of a line.
abbrev pub IsUnbroken : Text → Type 0
IsUnbroken [] = Unit
IsUnbroken (c ∷ cs) = (is_line_break c ≡ false) × IsUnbroken cs

no_line_break : (c : ℕ) → is_space c ≡ false → is_line_break c ≡ false
unfolding is_space
no_line_break c h = ground arith

pub IsUnbroken-of_solid : (text : Text) → IsSolid text → IsUnbroken text
IsUnbroken-of_solid [] h = tt
IsUnbroken-of_solid (c ∷ cs) (h, hs) = (no_line_break c h, IsUnbroken-of_solid cs hs)

pub IsUnbroken-append : (xs ys : Text) → IsUnbroken xs → IsUnbroken ys → IsUnbroken (xs ++ ys)
IsUnbroken-append [] ys h k = k
IsUnbroken-append (x ∷ xs) ys (h, hs) k = (h, IsUnbroken-append xs ys hs k)

pub spaces-IsUnbroken : (text : Text) → IsUnbroken text → IsUnbroken (32 ∷ 32 ∷ text)
unfolding is_line_break contains
spaces-IsUnbroken text h = (refl, (refl, h))

pub append-left_not_empty :
    (xs ys : Text) → is_empty_text xs ≡ false → is_empty_text (xs ++ ys) ≡ false
append-left_not_empty [] ys n = cc
append-left_not_empty (x ∷ xs) ys n = refl

-- A line that ends with a line feed.
pub split_lines-line :
    (line rest : Text)
    → IsUnbroken line
    → split_lines (line ++ (10 ∷ rest)) ≡ line ∷ split_lines rest
unfolding split_lines is_line_break contains
split_lines-line [] rest h = refl
split_lines-line (c ∷ cs) rest (h, hs) = rw (h, split_lines-line cs rest hs) refl

pub strip_right-word : (text : Text) → IsSolid text → strip_right text ≡ text
unfolding strip_right
strip_right-word [] h = refl
strip_right-word (c ∷ cs) (h, hs) = rw (h, strip_right-word cs hs) refl

append_not_empty : (xs ys : Text) → is_empty_text ys ≡ false → is_empty_text (xs ++ ys) ≡ false
append_not_empty [] ys n = n
append_not_empty (x ∷ xs) ys n = refl

Bool-and_false : (b : Bool) → (b && false) ≡ false
Bool-and_false true = refl
Bool-and_false false = refl

strip_right-append :
    (xs ys : Text)
    → is_empty_text ys ≡ false
    → strip_right ys ≡ ys
    → strip_right (xs ++ ys) ≡ xs ++ ys
unfolding strip_right
strip_right-append [] ys n h = h
strip_right-append (x ∷ xs) ys n h =
    rw (strip_right-append xs ys n h, append_not_empty xs ys n, Bool-and_false (is_space x)) refl

-- A text from a word to a word has no white space at its ends.
pub strip-words :
    (first between last : Text)
    → IsWord first
    → IsWord last
    → strip (first ++ (between ++ last)) ≡ first ++ (between ++ last)
unfolding strip strip_left
strip-words [] between last (f, _) l = cc
strip-words (c ∷ cs) between last (f, (h, hs)) (n, solid) = rw h (
    strip_right-append (c ∷ cs) (between ++ last) (append_not_empty between last n)
      (strip_right-append between last n (strip_right-word last solid)))

split-space : (c : ℕ) (cs : Text) → is_space c ≡ true → split (c ∷ cs) ≡ split cs
unfolding split
split-space c cs h = rw h refl

split-attach :
    (c : ℕ) (cs : Text)
    → is_space c ≡ false
    → starts_word cs ≡ true
    → split (c ∷ cs) ≡ attach c (split cs)
unfolding split
split-attach c cs h k = rw (h, k) refl

split-alone :
    (c : ℕ) (cs : Text)
    → is_space c ≡ false
    → starts_word cs ≡ false
    → split (c ∷ cs) ≡ (c ∷ []) ∷ split cs
unfolding split
split-alone c cs h k = rw (h, k) refl

starts_word-cons : (c : ℕ) (cs : Text) → is_space c ≡ false → starts_word (c ∷ cs) ≡ true
unfolding starts_word
starts_word-cons c cs h = ap not h

space_ends_word : (rest : Text) → starts_word (32 ∷ rest) ≡ false
unfolding starts_word is_space is_line_break contains
space_ends_word rest = refl

space_is_skipped : (rest : Text) → split (32 ∷ rest) ≡ split rest
unfolding split is_space is_line_break contains
space_is_skipped rest = refl

-- A word in front of a text that starts no word.
split-front :
    (word rest : Text)
    → IsWord word
    → starts_word rest ≡ false
    → split (word ++ rest) ≡ word ∷ split rest
split-front [] rest (n, _) k = cc
split-front (c ∷ []) rest (n, (h, _)) k = split-alone c rest h k
split-front (c ∷ d ∷ ds) rest (n, (h, (g, hs))) k =
    split-attach c (d ∷ ds ++ rest) h (starts_word-cons d (ds ++ rest) g)
    ∙ ap (attach c) (split-front (d ∷ ds) rest (refl, (g, hs)) k)

split_nothing : split [] ≡ []
unfolding split
split_nothing = refl

no_word : starts_word [] ≡ false
unfolding starts_word
no_word = refl

split_whole : (word : Text) → IsWord word → split word ≡ word ∷ []
split_whole word w =
    ap split (sym (append-nil word))
    ∙ split-front word [] w no_word
    ∙ ap (λ pieces. word ∷ pieces) split_nothing

-- Two words with two spaces between them.
pub split-columns :
    (first second : Text)
    → IsWord first
    → IsWord second
    → split (first ++ 32 ∷ 32 ∷ second) ≡ first ∷ second ∷ []
split-columns first second f s =
    split-front first (32 ∷ 32 ∷ second) f (space_ends_word (32 ∷ second))
    ∙ ap (λ pieces. first ∷ pieces)
        (space_is_skipped (32 ∷ second) ∙ space_is_skipped second ∙ split_whole second s)

attach-IsWord :
    (c : ℕ) (pieces : List Text)
    → is_space c ≡ false
    → All IsWord pieces
    → All IsWord (attach c pieces)
attach-IsWord c [] h w = ((refl, (h, tt)), tt)
attach-IsWord c (piece ∷ pieces) h ((_, solid), w) = ((refl, (h, solid)), w)

-- What `split` gives.
pub split-IsWord : (text : Text) → All IsWord (split text)
unfolding split
split-IsWord [] = tt
split-IsWord (c ∷ cs) = elim (Bool-cases (is_space c)) [
  | inl space ↦ rw (split-space c cs space) (split-IsWord cs)
  | inr solid ↦ elim (Bool-cases (starts_word cs)) [
    | inl more ↦
        rw (split-attach c cs solid more) (attach-IsWord c (split cs) solid (split-IsWord cs))
    | inr last ↦ rw (split-alone c cs solid last) ((refl, (solid, tt)), split-IsWord cs)
  ]
]

pub text_eq_sound : (xs ys : Text) → text_eq xs ys ≡ true → xs ≡ ys
unfolding text_eq
text_eq_sound [] [] h = refl
text_eq_sound [] (y ∷ ys) h = cc
text_eq_sound (x ∷ xs) [] h = cc
text_eq_sound (x ∷ xs) (y ∷ ys) h = elim (Bool-cases (x == y)) [
  | inl same ↦ rw ((==_iff x y).0 same) (ap (◌∷◌ y) (text_eq_sound xs ys (rw same at h)))
  | inr differ ↦ cc (rw differ at h)
]

pub text_eq_refl : (xs : Text) → text_eq xs xs ≡ true
unfolding text_eq
text_eq_refl [] = refl
text_eq_refl (x ∷ xs) = rw (==_refl x) (text_eq_refl xs)
