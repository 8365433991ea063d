-- ===== src/Config/Trim.antt =====
-- `trim` (src/config.h). `substr` throws when the text has no word, since its start is then `npos`.
use axio_emulator.Prelude.{
  ℕ, zero, suc, ◌≡◌, ◌≢◌, refl, ap, ◌∙◌, List, [], ◌∷◌, ◌++◌, replicate, Option, none, some, ◌==◌,
  false, if◌then◌else◌, arith,
}

abbrev pub space : ℕ
space = 32

-- From `find_first_not_of(' ')` on.
unfoldable pub strip_front : List ℕ → List ℕ
strip_front [] = []
strip_front (c ∷ cs) = let rest = strip_front cs in if c == space then rest else c ∷ cs

abbrev pub keep_word : ℕ → List ℕ → List ℕ
keep_word c [] = if c == space then [] else c ∷ []
keep_word c (d ∷ ds) = c ∷ d ∷ ds

-- Up to `find_last_not_of(' ')`.
unfoldable pub strip_back : List ℕ → List ℕ
strip_back [] = []
strip_back (c ∷ cs) = keep_word c (strip_back cs)

unfoldable pub trim : List ℕ → Option (List ℕ)
trim text = elim (strip_front text) [ [] ↦ none | c ∷ cs ↦ some (strip_back (c ∷ cs)) ]

strip_front-spaces : (n : ℕ) (cs : List ℕ) → strip_front (replicate n space ++ cs) ≡ strip_front cs
unfolding strip_front replicate
strip_front-spaces zero cs = refl
strip_front-spaces (suc n) cs = strip_front-spaces n cs

strip_back-spaces : (n : ℕ) → strip_back (replicate n space) ≡ []
unfolding strip_back replicate
strip_back-spaces zero = refl
strip_back-spaces (suc n) = ap (keep_word space) (strip_back-spaces n)

strip_back-end :
    (cs : List ℕ) (d n : ℕ)
    → d ≢ space
    → strip_back (cs ++ (d ∷ replicate n space)) ≡ cs ++ (d ∷ [])
unfolding strip_back
strip_back-end [] d n ne = ap (keep_word d) (strip_back-spaces n) ∙ ground (arith, ne)
strip_back-end (c ∷ []) d n ne = ap (keep_word c) (strip_back-end [] d n ne)
strip_back-end (c ∷ e ∷ cs) d n ne = ap (keep_word c) (strip_back-end (e ∷ cs) d n ne)

-- A text that starts and ends in something else than a space, with spaces around it, is what
-- `trim` gives back.
pub trim-word :
    (m n c d : ℕ) (cs : List ℕ)
    → c ≢ space
    → d ≢ space
    → trim (replicate m space ++ (c ∷ cs ++ (d ∷ replicate n space))) ≡ some (c ∷ cs ++ (d ∷ []))
unfolding trim strip_front
trim-word m n c d cs cne dne =
    let word = c ∷ cs ++ (d ∷ replicate n space) in
    let first : (c == space) ≡ false = ground (arith, cne) in
    let front : strip_front word ≡ word = ground (arith, first) in
    rw (strip_front-spaces m word, front, trim) (ap some (strip_back-end (c ∷ cs) d n dne))

-- `trim` throws on a text of spaces only.
pub trim-spaces : (n : ℕ) → trim (replicate n space) ≡ none
unfolding trim strip_front replicate
trim-spaces zero = refl
trim-spaces (suc n) = trim-spaces n
