-- ===== src/Bootstrap/ClassCommand.antt =====
-- `eatSpaces`, `matchString`, `getWord` and `matchVarList` of bootstrap/bootstrap.c, which scan a class
-- command. A place in the line is what is left of it there; at the end of that stands the final NUL.
pub mod Parse
use littlesmalltalk.Prelude.{
  ℕ, zero, suc, ◌-◌, ◌≡◌, ◌≢◌, refl, ap, ◌∙◌, ◌⊎◌, inl, inr, false, List, [], ◌∷◌, ◌++◌, Option,
  none, some, ◌==◌, ==_iff, if◌then◌else◌, Bool-cases, length, length-append, take, arith,
}
use littlesmalltalk.Prelude.Result.{Result, ok, fault}

-- `while (line[*start] == ' ') (*start)++;`: whether it moved is told by the caller's place.
unfoldable pub eat_spaces : List ℕ → List ℕ
eat_spaces [] = []
eat_spaces (c ∷ cs) = if c == b' ' then eat_spaces cs else c ∷ cs

-- The loop goes on behind the end where line and match end at once.
unfoldable pub match_string : List ℕ → List ℕ → Result (Option (List ℕ))
match_string [] [] = fault
match_string (c ∷ cs) [] = ok (some (c ∷ cs))
match_string [] (w ∷ ws) = ok none
match_string (c ∷ cs) (w ∷ ws) = if c == w then match_string cs ws else ok none

-- The characters up to the first `stop`, and the rest from there on.
unfoldable pub span : ℕ → List ℕ → List ℕ × List ℕ
span stop [] = ([], [])
span stop (c ∷ cs) =
    let (word, rest) = span stop cs in if c == stop then ([], c ∷ cs) else (c ∷ word, rest)

unfoldable pub skip_hash : List ℕ → List ℕ
skip_hash [] = []
skip_hash (c ∷ cs) = if c == b'#' then cs else c ∷ cs

-- The word, and the place behind it.
unfoldable pub get_word : List ℕ → List ℕ × List ℕ
get_word line = span b' ' (skip_hash (eat_spaces line))

-- The list without its last character, and the place behind `)`, if that is there.
abbrev pub close_list : List ℕ × List ℕ → Option (List ℕ × List ℕ)
close_list (vars, []) = none
close_list (vars, c ∷ behind) = some (take (length vars - 1) vars, behind)

-- Behind `#(`.
unfoldable pub var_list : List ℕ → Option (List ℕ × List ℕ)
var_list line = close_list (span b')' (eat_spaces line))

unfoldable pub open_list : List ℕ → Option (List ℕ × List ℕ)
open_list [] = none
open_list (c ∷ []) = none
open_list (c ∷ d ∷ cs) = if c == b'#' then (if d == b'(' then var_list cs else none) else none

unfoldable pub match_var_list : List ℕ → Option (List ℕ × List ℕ)
match_var_list line = open_list (eat_spaces line)

-- `matchString` decides whether the rest of the line starts with the string and goes on behind it,
-- and then moves behind it; at the very end of the line it runs out of both strings.
pub match_string-decides :
    (line word : List ℕ)
    → ((line ≡ word) × (match_string line word ≡ fault))
      ⊎ (((c : ℕ) × (rest : List ℕ) × (line ≡ word ++ c ∷ rest)
            × (match_string line word ≡ ok (some (c ∷ rest))))
          ⊎ (((rest : List ℕ) → line ≢ word ++ rest) × (match_string line word ≡ ok none)))
unfolding match_string
match_string-decides [] [] = inl (refl, refl)
match_string-decides (c ∷ cs) [] = inr (inl (c, cs, refl, refl))
match_string-decides [] (w ∷ ws) = inr (inr (λ rest e. cc, refl))
match_string-decides (c ∷ cs) (w ∷ ws) = elim (Bool-cases (c == w)) [
  | inr ne ↦ inr (inr (λ rest e. (let h : c ≡ w = cc in cc (rw ne at ((==_iff c w).1 h))), rw ne))
  | inl same ↦
      let e = (==_iff c w).0 same in
      elim (match_string-decides cs ws) [
        | inl (whole, m) ↦ inl (rw (e, whole), rw same m)
        | inr (inl (d, rest, whole, m)) ↦ inr (inl (d, rest, rw (e, whole), rw same m))
        | inr (inr (differs, m)) ↦ inr (inr (λ rest h. differs rest (cc), rw same m))
      ]
]

-- No character of the word is `stop`.
abbrev pub Free : ℕ → List ℕ → Type 0
Free stop [] = Unit
Free stop (c ∷ cs) = (c ≢ stop) × Free stop cs

ne_test : (a b : ℕ) → a ≢ b → (a == b) ≡ false
ne_test a b h = ground arith

span-append :
    (stop : ℕ) (word rest : List ℕ)
    → Free stop word
    → span stop (word ++ stop ∷ rest) ≡ (word, stop ∷ rest)
unfolding span
span-append stop [] rest h = rw ((==_iff stop stop).1 refl)
span-append stop (c ∷ cs) rest (h, hs) = rw (ne_test c stop h, span-append stop cs rest hs)

-- Blanks in front of a line.
abbrev pub padded : ℕ → List ℕ → List ℕ
padded zero line = line
padded (suc n) line = b' ' ∷ padded n line

eat_spaces-padded : (n : ℕ) (line : List ℕ) → eat_spaces (padded n line) ≡ eat_spaces line
unfolding eat_spaces
eat_spaces-padded zero line = refl
eat_spaces-padded (suc n) line = eat_spaces-padded n line

eat_spaces-stop : (c : ℕ) (cs : List ℕ) → c ≢ b' ' → eat_spaces (c ∷ cs) ≡ c ∷ cs
unfolding eat_spaces
eat_spaces-stop c cs h = rw (ne_test c b' ' h)

take-last : (xs : List ℕ) (x : ℕ) → take (length xs) (xs ++ x ∷ []) ≡ xs
take-last [] x = refl
take-last (y ∷ ys) x = ap (λ t. y ∷ t) (take-last ys x)

-- `getWord` skips blanks and one `#`, returns the characters up to the next blank, and leaves the place
-- at that blank. The word starts with neither of the two.
pub get_word-word :
    (n c : ℕ) (word rest : List ℕ)
    → c ≢ b' '
    → c ≢ b'#'
    → Free b' ' word
    → (get_word (padded n (c ∷ (word ++ b' ' ∷ rest))) ≡ (c ∷ word, b' ' ∷ rest))
      × (get_word (padded n (b'#' ∷ (c ∷ (word ++ b' ' ∷ rest)))) ≡ (c ∷ word, b' ' ∷ rest))
unfolding get_word skip_hash
get_word-word n c word rest blank hash free =
    let tail = word ++ b' ' ∷ rest in
    let whole = span-append b' ' (c ∷ word) rest (blank, free) in
    let plain : eat_spaces (padded n (c ∷ tail)) ≡ c ∷ tail =
      eat_spaces-padded n (c ∷ tail) ∙ eat_spaces-stop c tail blank in
    let marked : eat_spaces (padded n (b'#' ∷ (c ∷ tail))) ≡ b'#' ∷ (c ∷ tail) =
      eat_spaces-padded n (b'#' ∷ (c ∷ tail))
      ∙ eat_spaces-stop b'#' (c ∷ tail) (λ e. omega arith) in
    (rw (plain, ne_test c b'#' hash) whole, rw marked whole)

var_list-closed :
    (m c last : ℕ) (vars rest : List ℕ)
    → c ≢ b' '
    → c ≢ b')'
    → Free b')' (vars ++ last ∷ [])
    → var_list (padded m ((c ∷ (vars ++ last ∷ [])) ++ b')' ∷ rest)) ≡ some (c ∷ vars, rest)
unfolding var_list
var_list-closed m c last vars rest blank closing free =
    let inside = c ∷ (vars ++ last ∷ []) in
    let size : length inside - 1 ≡ length (c ∷ vars) =
      omega (arith, length-append vars (last ∷ [])) in
    let start : eat_spaces (padded m (inside ++ b')' ∷ rest)) ≡ inside ++ b')' ∷ rest =
      eat_spaces-padded m (inside ++ b')' ∷ rest)
      ∙ eat_spaces-stop c ((vars ++ last ∷ []) ++ b')' ∷ rest) blank in
    rw (start, span-append b')' inside rest (closing, free), size, take-last (c ∷ vars) last)

-- `matchVarList` returns what stands between `#(` and `)` without the blanks in front and without its
-- last character, whatever that is, and moves behind the parenthesis. There are two characters or
-- more, and the first is no blank.
pub match_var_list-drops_last :
    (n m c last : ℕ) (vars rest : List ℕ)
    → c ≢ b' '
    → c ≢ b')'
    → Free b')' (vars ++ last ∷ [])
    → match_var_list
        (padded n (b'#' ∷ (b'(' ∷ padded m ((c ∷ (vars ++ last ∷ [])) ++ b')' ∷ rest))))
      ≡ some (c ∷ vars, rest)
unfolding match_var_list open_list
match_var_list-drops_last n m c last vars rest blank closing free =
    let line = padded m ((c ∷ (vars ++ last ∷ [])) ++ b')' ∷ rest) in
    let opened : eat_spaces (padded n (b'#' ∷ (b'(' ∷ line))) ≡ b'#' ∷ (b'(' ∷ line) =
      eat_spaces-padded n (b'#' ∷ (b'(' ∷ line))
      ∙ eat_spaces-stop b'#' (b'(' ∷ line) (λ e. omega arith) in
    rw opened (var_list-closed m c last vars rest blank closing free)
