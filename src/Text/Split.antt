-- ===== src/Text/Split.antt =====
-- Splitting undoes joining.
use axio_emulator.Prelude.{ℕ, ◌≡◌, refl, ap, ◌∙◌, List, [], ◌∷◌, ◌++◌, false, count, ◌==◌, arith}
use axio_emulator.Text.{tokens, add_char}

-- A piece without the delimiter that the delimiter ends is the first token.
pub tokens-piece :
    (d : ℕ) (xs ys : List ℕ) → count d xs ≡ 0 → tokens d (xs ++ (d ∷ ys)) ≡ xs ∷ tokens d ys
unfolding tokens
tokens-piece d [] ys e = ground arith
tokens-piece d (x ∷ xs) ys e =
    let ih = tokens-piece d xs ys (ground arith) in
    let ne : (x == d) ≡ false = ground arith in rw (ne, ih) refl

-- A text without the delimiter is one token, unless it is empty.
pub tokens-last : (d x : ℕ) (xs : List ℕ) → count d (x ∷ xs) ≡ 0 → tokens d (x ∷ xs) ≡ (x ∷ xs) ∷ []
unfolding tokens
tokens-last d x [] e = ground arith
tokens-last d x (y ∷ ys) e =
    let ih = tokens-last d y ys (ground arith) in
    let ne : (x == d) ≡ false = ground arith in rw (ne, ap (add_char x) ih) refl

-- Every piece followed by the delimiter.
unfoldable pub join : ℕ → List (List ℕ) → List ℕ
join d [] = []
join d (xs ∷ xss) = xs ++ (d ∷ join d xss)

pub data Apart (d : ℕ) : List (List ℕ) → Type 0 where
  no_piece : Apart d []
  piece : {xs : List ℕ} {xss : List (List ℕ)} → count d xs ≡ 0 → Apart d xss → Apart d (xs ∷ xss)

-- Pieces without the delimiter, each followed by it, are the tokens.
pub tokens-join : (d : ℕ) (xss : List (List ℕ)) → Apart d xss → tokens d (join d xss) ≡ xss
unfolding join tokens
tokens-join d [] no_piece = refl
tokens-join d (xs ∷ xss) (piece e a) =
    tokens-piece d xs (join d xss) e ∙ ap (◌∷◌ xs) (tokens-join d xss a)
