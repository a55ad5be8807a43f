-- ===== src/Url/RoundTrip.antt =====
-- A string that was made URL safe is read back.
use littlesmalltalk.Prelude.{
  ℕ, suc, ◌+◌, ◌-◌, ◌*◌, ◌/◌, ◌%◌, ◌<◌, ◌≡◌, refl, ap, Bool, true, false, not, ◌&&◌, ◌||◌, List, [],
  ◌∷◌, ◌++◌, Option, none, some, Bool-cases, inl, inr, ◌==◌, ==_iff, leb, if◌then◌else◌, length,
  arith,
}
use littlesmalltalk.Prelude.Bits.{all_below, all_below_sound}
use littlesmalltalk.Prelude.Result.{ok}
use littlesmalltalk.Url.{
  strchr, is_bad, count_bad, hex_digit, copy_encoded, string_to_url, count_url, hex_value, url_step,
  copy_decoded, url_to_string,
}

abbrev sent : ℕ → ℕ
sent c = if c == b' ' then b'+' else c

-- What is left of a string when it is URL safe.
abbrev encoded_char : ℕ → List ℕ
encoded_char c =
    if is_bad c then b'%' ∷ hex_digit (c / 16 % 16) ∷ hex_digit (c % 16) ∷ [] else sent c ∷ []

abbrev encoded : List ℕ → List ℕ
encoded [] = []
encoded (c ∷ cs) = encoded_char c ++ encoded cs

-- Every byte of a string is one of C.
abbrev pub AreBytes : List ℕ → Type 0
AreBytes [] = Unit
AreBytes (c ∷ cs) = (c < 256) × AreBytes cs

-- The room that `stringToUrl` computes is exactly what the loop needs.
copy_encoded-encoded :
    (cs : List ℕ) → copy_encoded (length cs + count_bad cs * 2) cs ≡ ok (encoded cs)
unfolding copy_encoded count_bad
copy_encoded-encoded [] = refl
copy_encoded-encoded (c ∷ cs) = elim (Bool-cases (is_bad c)) [
  | inl bad ↦
      let room : length (c ∷ cs) + (count_bad cs + 1) * 2 ≡ suc (length cs + count_bad cs * 2 + 2) =
        omega arith in
      let less : length cs + count_bad cs * 2 + 2 - 2 ≡ length cs + count_bad cs * 2 =
        omega arith in
      let enough : leb 2 (length cs + count_bad cs * 2 + 2) ≡ true = ground arith in
      rw (bad, room, bad, enough, less, copy_encoded-encoded cs)
  | inr good ↦
      let room : length (c ∷ cs) + count_bad cs * 2 ≡ suc (length cs + count_bad cs * 2) =
        omega arith in
      rw (good, room, good, copy_encoded-encoded cs)
]

digit_is : ℕ → Option ℕ → Bool
digit_is n none = false
digit_is n (some v) = v == n

digit_is-some : (n : ℕ) (o : Option ℕ) → digit_is n o ≡ true → o ≡ some n
unfolding digit_is
digit_is-some n none h = cc
digit_is-some n (some v) h = ap some ((==_iff v n).0 h)

digit_checks : ℕ → Bool
unfolding digit_is
digit_checks n =
    not (b'%' == hex_digit n) && (not (hex_digit n == b'+') && digit_is n (hex_value (hex_digit n)))

digit_table : all_below 16 (λ n. digit_checks n) ≡ true
unfolding all_below digit_checks digit_is hex_value strchr
digit_table = refl

-- A hexadecimal digit is read as its value and nothing else.
record Digit (n : ℕ) : Type 0 where
  not_percent : (b'%' == hex_digit n) ≡ false
  not_plus : (hex_digit n == b'+') ≡ false
  value : hex_value (hex_digit n) ≡ some n

not-false : (b : Bool) → not b ≡ true → b ≡ false
not-false true h = cc
not-false false h = refl

and_both : (a b : Bool) → (a && b) ≡ true → (a ≡ true) × (b ≡ true)
and_both true b h = (refl, h)
and_both false b h = cc

digit : (n : ℕ) → n < 16 → Digit n
unfolding digit_checks digit_is
digit n h =
    let (p, rest) = and_both _ _ (all_below_sound 16 (λ n. digit_checks n) n digit_table h) in
    let (q, v) = and_both _ _ rest in
    record { not_percent = not-false _ p; not_plus = not-false _ q; value = digit_is-some n _ v }

step-percent : (h begun : ℕ) → url_step h begun b'%' ≡ ok (none, 2, begun)
unfolding url_step
step-percent h begun = refl

step-high : (begun n : ℕ) → n < 16 → url_step 2 begun (hex_digit n) ≡ ok (none, 1, n * 16 % 256)
unfolding url_step
step-high begun n h = let d = digit n h in rw (d.not_plus, d.not_percent, d.value)

step-low :
    (begun n : ℕ) → n < 16 → url_step 1 begun (hex_digit n) ≡ ok (some ((begun + n) % 256), 0, 0)
unfolding url_step
step-low begun n h = let d = digit n h in rw (d.not_plus, d.not_percent, d.value)

-- What is not bad is neither a percent sign nor a plus, and a blank comes back from a plus.
plain_checks : ℕ → Bool
plain_checks c =
    let sent = if c == b' ' then b'+' else c in
    let back = if sent == b'+' then b' ' else sent in
    is_bad c || (not (b'%' == sent) && (not (b'%' == back) && back == c))

plain_table : all_below 256 (λ c. plain_checks c) ≡ true
unfolding all_below plain_checks is_bad strchr
plain_table = refl

abbrev received : ℕ → ℕ
received c = if sent c == b'+' then b' ' else sent c

plain :
    (c : ℕ)
    → c < 256
    → is_bad c ≡ false
    → ((b'%' == sent c) ≡ false) × ((b'%' == received c) ≡ false) × (received c ≡ c)
unfolding plain_checks
plain c h good =
    let (o, rest) =
      and_both _ _ (rw good at (all_below_sound 256 (λ c. plain_checks c) c plain_table h)) in
    let (p, q) = and_both _ _ rest in (not-false _ o, not-false _ p, (==_iff (received c) c).0 q)

step-plain : (c : ℕ) → c < 256 → is_bad c ≡ false → url_step 0 0 (sent c) ≡ ok (some c, 0, 0)
unfolding url_step
step-plain c h good = let (o, p, q) = plain c h good in rw p (ap (λ (t : ℕ). ok (some t, 0, 0)) q)

copy_decoded-encoded :
    (cs : List ℕ) → AreBytes cs → copy_decoded (length cs) 0 0 (encoded cs) ≡ ok cs
unfolding copy_decoded
copy_decoded-encoded [] h = refl
copy_decoded-encoded (c ∷ cs) (h, hs) = elim (Bool-cases (is_bad c)) [
  | inl bad ↦
      let sum : (c / 16 % 16 * 16 % 256 + c % 16) % 256 ≡ c = omega arith in
      rw (
        bad,
        step-percent,
        step-high 0 (c / 16 % 16) (omega arith),
        step-low _ (c % 16) (omega arith),
        sum,
        copy_decoded-encoded cs hs,
      )
  | inr good ↦ rw (good, step-plain c h good, copy_decoded-encoded cs hs)
]

count_url-encoded : (cs : List ℕ) → AreBytes cs → count_url (encoded cs) ≡ count_bad cs
unfolding count_url count_bad
count_url-encoded [] h = refl
count_url-encoded (c ∷ cs) (h, hs) = elim (Bool-cases (is_bad c)) [
  | inl bad ↦ rw (
    bad,
    (digit (c / 16 % 16) (omega arith)).not_percent,
    (digit (c % 16) (omega arith)).not_percent,
    count_url-encoded cs hs,
  )
  | inr good ↦ rw (good, (plain c h good).0, count_url-encoded cs hs)
]

length-encoded : (cs : List ℕ) → length (encoded cs) ≡ length cs + count_bad cs * 2
unfolding count_bad
length-encoded [] = refl
length-encoded (c ∷ cs) = elim (Bool-cases (is_bad c)) [
  | inl bad ↦ rw bad (omega (arith, length-encoded cs))
  | inr good ↦ rw good (omega (arith, length-encoded cs))
]

-- `stringToUrl` of any bytes returns, and it fills the new string exactly; `urlToString` of what it
-- returns gives the bytes back.
pub url_to_string-string_to_url :
    (from : List ℕ)
    → AreBytes from
    → (url : List ℕ) × (string_to_url from ≡ ok url)
      × (length url ≡ length from + count_bad from * 2)
      × (url_to_string url ≡ ok from)
unfolding string_to_url url_to_string
url_to_string-string_to_url from h =
    let room : length (encoded from) - count_url (encoded from) * 2 ≡ length from =
      omega (arith, length-encoded from, count_url-encoded from h) in
    (
      encoded from,
      copy_encoded-encoded from,
      length-encoded from,
      rw (room, copy_decoded-encoded from h),
    )
