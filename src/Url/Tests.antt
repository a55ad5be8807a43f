-- ===== src/Url/Tests.antt =====
-- A string with a blank, a plus and a percent sign.
use littlesmalltalk.Prelude.{ℕ, ◌+◌, ◌*◌, ◌≡◌, refl, List, [], ◌∷◌, length, arith}
use littlesmalltalk.Prelude.Result.{ok}
use littlesmalltalk.Url.{strchr, is_bad, count_bad, copy_encoded, string_to_url, url_to_string}
use littlesmalltalk.Url.RoundTrip.{url_to_string-string_to_url}

abbrev mixed : List ℕ
mixed = b'a' ∷ b' ' ∷ b'+' ∷ b'%' ∷ 200 ∷ []

url_to_string-string_to_url_example :
    (url : List ℕ) × (string_to_url mixed ≡ ok url)
    × (length url ≡ length mixed + count_bad mixed * 2)
    × (url_to_string url ≡ ok mixed)
url_to_string-string_to_url_example =
    url_to_string-string_to_url mixed
      (omega arith, (omega arith, (omega arith, (omega arith, (omega arith, tt)))))

plus_encoded : string_to_url (b'a' ∷ b' ' ∷ b'+' ∷ []) ≡ ok (b'a' ∷ b'+' ∷ b'%' ∷ b'2' ∷ b'B' ∷ [])
unfolding string_to_url copy_encoded count_bad is_bad strchr
plus_encoded = refl
