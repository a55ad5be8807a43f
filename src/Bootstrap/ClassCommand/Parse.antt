-- ===== src/Bootstrap/ClassCommand/Parse.antt =====
-- `parseClassCommand` of bootstrap/bootstrap.c, which puts the scanners together. `calloc` is taken to
-- give the memory for each name.
use littlesmalltalk.Prelude.{
  ℕ, suc, ◌≡◌, ◌≢◌, refl, ◌∙◌, List, [], ◌∷◌, ◌++◌, Option, none, some, ◌==◌, ==_iff, if◌then◌else◌,
  arith,
}
use littlesmalltalk.Prelude.Result.{Result, ok, ◌>>=◌}
use littlesmalltalk.Bootstrap.ClassCommand.{
  eat_spaces, match_string, get_word, var_list, open_list, match_var_list, span, Free, padded,
  eat_spaces-padded, eat_spaces-stop, get_word-word, match_var_list-drops_last,
}

-- The four texts that are passed back.
pub record ClassNames : Type 0 where
  pub superclass_name : List ℕ
  pub inst_class_name : List ℕ
  pub inst_vars : List ℕ
  pub class_vars : List ℕ

abbrev pub subclass_text : List ℕ
subclass_text = b's' ∷ b'u' ∷ b'b' ∷ b'c' ∷ b'l' ∷ b'a' ∷ b's' ∷ b's' ∷ b':' ∷ []

abbrev pub variables_text : List ℕ
variables_text = b'v' ∷ b'a' ∷ b'r' ∷ b'i' ∷ b'a' ∷ b'b' ∷ b'l' ∷ b'e' ∷ b's' ∷ b':' ∷ []

abbrev pub class_variables_text : List ℕ
class_variables_text =
    b'c' ∷ b'l' ∷ b'a' ∷ b's' ∷ b's' ∷ b'V' ∷ b'a' ∷ b'r' ∷ b'i' ∷ b'a' ∷ b'b' ∷ b'l' ∷ b'e' ∷ b's'
    ∷ b':' ∷ []

-- `none` is the return value 0.
abbrev pub Parsed : Type 0 → Type 0
Parsed A = Result (Option A)

-- What follows runs where the part was found.
abbrev pub found : {A B : Type 0} → Option A → (A → Parsed B) → Parsed B
found none next = ok none
found (some a) next = next a

-- Blanks, and then the text.
unfoldable pub keyword : {B : Type 0} → List ℕ → List ℕ → (List ℕ → Parsed B) → Parsed B
keyword text line next = match_string (eat_spaces line) text >>= λ rest. found rest next

-- Behind the `+`.
unfoldable pub parse_behind : List ℕ → Parsed ClassNames
parse_behind line =
    let (superclass, line₁) = get_word line in
    keyword subclass_text line₁ λ line₂.
      (let (class_, line₃) = get_word (eat_spaces line₂) in
        keyword variables_text line₃ λ line₄.
          found (match_var_list (eat_spaces line₄)) λ (vars, line₅).
            keyword class_variables_text line₅ λ line₆.
              found (match_var_list (eat_spaces line₆)) λ (class_vars, line₇). ok (
                some (record {
                  superclass_name = superclass;
                  inst_class_name = class_;
                  inst_vars = vars;
                  class_vars = class_vars;
                })))

unfoldable pub parse_class_command : List ℕ → Parsed ClassNames
parse_class_command [] = ok none
parse_class_command (c ∷ line) = if c == b'+' then parse_behind line else ok none

-- A name has no blank and does not start with `#`.
abbrev pub IsWord : List ℕ → Type 0
IsWord [] = ⊥
IsWord (c ∷ cs) = (c ≢ b' ') × (c ≢ b'#') × Free b' ' cs

-- The variables have no parenthesis and do not start with a blank; one blank stands behind them.
abbrev pub IsVars : List ℕ → Type 0
IsVars [] = Unit {0}
IsVars (c ∷ cs) = (c ≢ b' ') × (c ≢ b')') × Free b')' (cs ++ b' ' ∷ [])

abbrev pub list_text : List ℕ → List ℕ
list_text [] = []
list_text (c ∷ cs) = c ∷ (cs ++ b' ' ∷ [])

-- `+SuperClass subclass: #NewClass variables: #( instVars ) classVariables: #( classVars )`, with further
-- blanks before each part.
abbrev pub class_line : (ℕ → ℕ) → ClassNames → List ℕ → List ℕ
class_line p n behind =
    let list₂ = b'#' ∷ (b'(' ∷ padded (p 8) (list_text n.class_vars ++ b')' ∷ behind)) in
    let part₄ = padded (p 6) (class_variables_text ++ padded (suc (p 7)) list₂) in
    let list₁ = b'#' ∷ (b'(' ∷ padded (p 5) (list_text n.inst_vars ++ b')' ∷ part₄)) in
    let part₃ = variables_text ++ padded (suc (p 4)) list₁ in
    let part₂ = b'#' ∷ (n.inst_class_name ++ padded (suc (p 3)) part₃) in
    b'+'
    ∷ padded (p 0)
        (n.superclass_name ++ padded (suc (p 1)) (subclass_text ++ padded (suc (p 2)) part₂))

match_string-append :
    (text : List ℕ) (c : ℕ) (rest : List ℕ)
    → match_string (text ++ c ∷ rest) text ≡ ok (some (c ∷ rest))
unfolding match_string
match_string-append [] c rest = refl
match_string-append (w ∷ ws) c rest = rw ((==_iff w w).1 refl) (match_string-append ws c rest)

keyword_lem :
    {B : Type 0} (w : ℕ) (ws : List ℕ) (n m : ℕ) (rest : List ℕ) (next : List ℕ → Parsed B)
    → w ≢ b' '
    → keyword (w ∷ ws) (padded n ((w ∷ ws) ++ padded (suc m) rest)) next
      ≡ next (padded (suc m) rest)
unfolding keyword
keyword_lem w ws n m rest next ne =
    let line = ws ++ padded (suc m) rest in
    let eaten : eat_spaces (padded n (w ∷ line)) ≡ w ∷ line =
      eat_spaces-padded n (w ∷ line) ∙ eat_spaces-stop w line ne in
    rw (eaten, match_string-append (w ∷ ws) b' ' (padded m rest)) refl

get_word-plain :
    (n : ℕ) (word rest : List ℕ)
    → IsWord word
    → get_word (padded n (word ++ b' ' ∷ rest)) ≡ (word, b' ' ∷ rest)
get_word-plain n [] rest h = absurd h
get_word-plain n (c ∷ cs) rest (blank, hash, free) = (get_word-word n c cs rest blank hash free).0

get_word-symbol :
    (n : ℕ) (word rest : List ℕ)
    → IsWord word
    → get_word (eat_spaces (padded n (b'#' ∷ (word ++ b' ' ∷ rest)))) ≡ (word, b' ' ∷ rest)
get_word-symbol n [] rest h = absurd h
get_word-symbol n (c ∷ cs) rest (blank, hash, free) =
    let line = (c ∷ cs) ++ b' ' ∷ rest in
    rw (eat_spaces-padded n (b'#' ∷ line), eat_spaces-stop b'#' line (λ e. omega arith))
      ((get_word-word 0 c cs rest blank hash free).1)

match_var_list-empty :
    (m : ℕ) (rest : List ℕ)
    → match_var_list (b'#' ∷ (b'(' ∷ padded m (b')' ∷ rest))) ≡ some ([], rest)
unfolding match_var_list open_list var_list span eat_spaces
match_var_list-empty m rest = rw (eat_spaces-padded m (b')' ∷ rest)) refl

match_var_list_lem :
    (n m : ℕ) (vars rest : List ℕ)
    → IsVars vars
    → match_var_list
        (eat_spaces (padded n (b'#' ∷ (b'(' ∷ padded m (list_text vars ++ b')' ∷ rest)))))
      ≡ some (vars, rest)
match_var_list_lem n m vars rest h =
    let line = b'(' ∷ padded m (list_text vars ++ b')' ∷ rest) in
    rw (eat_spaces-padded n (b'#' ∷ line), eat_spaces-stop b'#' line (λ e. omega arith))
      (inner vars h)
  where
    inner :
        (vars : List ℕ)
        → IsVars vars
        → match_var_list (b'#' ∷ (b'(' ∷ padded m (list_text vars ++ b')' ∷ rest)))
          ≡ some (vars, rest)
    inner [] h = match_var_list-empty m rest
    inner (c ∷ cs) (blank, closing, free) =
        match_var_list-drops_last 0 m c b' ' cs rest blank closing free

-- `parseClassCommand` reads the four texts back from a line that is written as its comment says, with any
-- number of blanks where there is one; a list of variables has exactly one blank behind its last name.
pub parse_class_command-line :
    (p : ℕ → ℕ) (n : ClassNames) (behind : List ℕ)
    → IsWord n.superclass_name
    → IsWord n.inst_class_name
    → IsVars n.inst_vars
    → IsVars n.class_vars
    → parse_class_command (class_line p n behind) ≡ ok (some n)
unfolding parse_class_command parse_behind
parse_class_command-line p n behind super_ class_ vars class_vars =
    rw
      (
        get_word-plain (p 0) n.superclass_name _ super_,
        keyword_lem b's' _ (suc (p 1)) (p 2) _ _ (λ e. omega arith),
        get_word-symbol (suc (p 2)) n.inst_class_name _ class_,
        keyword_lem b'v' _ (suc (p 3)) (p 4) _ _ (λ e. omega arith),
        match_var_list_lem (suc (p 4)) (p 5) n.inst_vars _ vars,
        keyword_lem b'c' _ (p 6) (p 7) _ _ (λ e. omega arith),
        match_var_list_lem (suc (p 7)) (p 8) n.class_vars _ class_vars,
      )
      refl
