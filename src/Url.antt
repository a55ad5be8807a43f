-- ===== src/Url.antt =====
-- `stringToUrl` and `urlToString` of vm/prim.c on the bytes of a string. The loops also stop when the
-- new string is full; a write behind it is a fault. A digit that `strchr` does not find gives the
-- difference of NULL and a pointer, which C leaves undefined.
pub mod RoundTrip
pub mod Tests
use littlesmalltalk.Prelude.{
  ℕ, zero, suc, ◌+◌, ◌-◌, ◌*◌, ◌/◌, ◌%◌, Bool, true, false, ◌&&◌, ◌||◌, List, [], ◌∷◌, Option, none,
  some, ◌==◌, leb, if◌then◌else◌, length, get_or,
}
use littlesmalltalk.Prelude.Result.{Result, ok, fault, ◌>>=◌, access}

-- `;/?:@&=+!*'(),$-_.<>#%"` with the tab and the ends of lines, and the final NUL, which `strchr` finds too.
abbrev pub bad_url_chars : List ℕ
bad_url_chars =
    b';' ∷ b'/' ∷ b'?' ∷ b':' ∷ b'@' ∷ b'&' ∷ b'=' ∷ b'+' ∷ b'!' ∷ b'*' ∷ 39 ∷ b'(' ∷ b')' ∷ b','
    ∷ b'$' ∷ b'-' ∷ b'_' ∷ b'.' ∷ b'<' ∷ b'>' ∷ b'#' ∷ b'%' ∷ 34 ∷ 9 ∷ 10 ∷ 13 ∷ 0 ∷ []

-- `0123456789ABCDEF`
abbrev pub hex_digits : List ℕ
hex_digits =
    b'0' ∷ b'1' ∷ b'2' ∷ b'3' ∷ b'4' ∷ b'5' ∷ b'6' ∷ b'7' ∷ b'8' ∷ b'9' ∷ b'A' ∷ b'B' ∷ b'C' ∷ b'D'
    ∷ b'E' ∷ b'F' ∷ []

-- The index at which `strchr` finds a character.
unfoldable pub strchr : List ℕ → ℕ → Option ℕ
strchr [] c = none
strchr (d ∷ ds) c =
    if d == c then some 0 else elim (strchr ds c) [ none ↦ none | some i ↦ some (i + 1) ]

unfoldable pub is_bad : ℕ → Bool
is_bad c = elim (strchr bad_url_chars c) [ none ↦ false | some i ↦ true ]

unfoldable pub count_bad : List ℕ → ℕ
count_bad [] = 0
count_bad (c ∷ cs) = if is_bad c then count_bad cs + 1 else count_bad cs

abbrev pub hex_digit : ℕ → ℕ
hex_digit n = get_or hex_digits n 0

-- The copying loop, with `room` places left in the new string.
unfoldable pub copy_encoded : ℕ → List ℕ → Result (List ℕ)
copy_encoded room [] = ok []
copy_encoded zero (c ∷ cs) = ok []
copy_encoded (suc room) (c ∷ cs) =
    let short = (copy_encoded room cs >>= λ out. ok ((if c == b' ' then b'+' else c) ∷ out)) in
    let long =
      (copy_encoded (room - 2) cs >>= λ out.
      ok (b'%' ∷ hex_digit (c / 16 % 16) ∷ hex_digit (c % 16) ∷ out)) in
    if is_bad c then (if leb 2 room then long else fault) else short

unfoldable pub string_to_url : List ℕ → Result (List ℕ)
string_to_url from = copy_encoded (length from + count_bad from * 2) from

unfoldable pub count_url : List ℕ → ℕ
count_url [] = 0
count_url (c ∷ cs) = if b'%' == c then count_url cs + 1 else count_url cs

abbrev pub toupper : ℕ → ℕ
toupper c = if leb b'a' c && leb c b'z' then c - 32 else c

-- `strchr(hexDigits, toupper(c)) - hexDigits`
unfoldable pub hex_value : ℕ → Option ℕ
hex_value c = elim (strchr hex_digits (toupper c)) [
  | none ↦ if toupper c == 0 then some 16 else none
  | some i ↦ some i
]

-- One character: the byte that is complete, if any, `is_hex`, and the byte begun at `to_ptr[j]`.
unfoldable pub url_step : ℕ → ℕ → ℕ → Result (Option ℕ × ℕ × ℕ)
url_step is_hex begun char =
    let c = if char == b'+' then b' ' else char in
    let state = if b'%' == c then 3 else is_hex in
    if state == 3
    then ok (none, 2, begun)
    else if state == 2
    then (access (hex_value c) >>= λ v. ok (none, 1, v * 16 % 256))
    else if state == 1
    then (access (hex_value c) >>= λ v. ok (some ((begun + v) % 256), 0, 0))
    else ok (some c, 0, 0)

unfoldable pub copy_decoded : ℕ → ℕ → ℕ → List ℕ → Result (List ℕ)
copy_decoded room is_hex begun [] = ok []
copy_decoded zero is_hex begun (c ∷ cs) = ok []
copy_decoded (suc room) is_hex begun (c ∷ cs) =
    url_step is_hex begun c >>= λ (complete, is_hex', begun'). elim complete [
      | none ↦ copy_decoded (suc room) is_hex' begun' cs
      | some b ↦ (copy_decoded room is_hex' begun' cs >>= λ out. ok (b ∷ out))
    ]

-- A negative size is set to 0, as the difference on ℕ is.
unfoldable pub url_to_string : List ℕ → Result (List ℕ)
url_to_string from = copy_decoded (length from - count_url from * 2) 0 0 from
