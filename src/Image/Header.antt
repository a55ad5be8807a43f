-- ===== src/Image/Header.antt =====
-- `get_image_version`, `put_image_version` and the choice of a reader in `fileIn` (vm/image.c). A
-- reader is at the place that the rest of the file stands for; `fseek` is a place in the whole file.
use littlesmalltalk.Prelude.{
  ℕ, ◌≡◌, inl, inr, false, ◌&&◌, List, [], ◌∷◌, ◌++◌, drop, ◌==◌, leb, if◌then◌else◌, Bool-cases,
}
use littlesmalltalk.Prelude.Result.{Result, ok, error}

abbrev image_header_size : ℕ
image_header_size = 5

abbrev image_header_size_old : ℕ
image_header_size_old = 8

abbrev image_version_2 : ℕ
image_version_2 = 2

unfoldable pub get_image_version : List ℕ → Result (ℕ × List ℕ)
get_image_version (h0 ∷ h1 ∷ h2 ∷ h3 ∷ ver ∷ rest) =
    let file = h0 ∷ h1 ∷ h2 ∷ h3 ∷ ver ∷ rest in
    if h0 == b'l' && (h1 == b's' && (h2 == b't' && h3 == b'!'))
    then (if leb ver image_version_2
        then ok (ver, drop image_header_size_old file)
        else ok (ver, rest))
    else ok (0, file)
get_image_version _ = error

unfoldable pub put_image_version : ℕ → List ℕ
put_image_version version =
    let header = b'l' ∷ b's' ∷ b't' ∷ b'!' ∷ version ∷ [] in
    if leb version image_version_2 then header ++ 0 ∷ 0 ∷ 0 ∷ [] else header

-- A header of any version is read back, and the reader then stands behind it.
pub get_image_version-put :
    (version : ℕ) (rest : List ℕ)
    → get_image_version (put_image_version version ++ rest) ≡ ok (version, rest)
unfolding get_image_version put_image_version
get_image_version-put version rest = elim (Bool-cases (leb version 2)) [
  | inl old ↦ rw (old, old)
  | inr new ↦ rw (new, new)
]

-- A file that starts with other bytes is a headerless image of version 0, read from its start.
pub get_image_version-headerless :
    (h0 h1 h2 h3 ver : ℕ) (rest : List ℕ)
    → (h0 == b'l' && (h1 == b's' && (h2 == b't' && h3 == b'!'))) ≡ false
    → get_image_version (h0 ∷ h1 ∷ h2 ∷ h3 ∷ ver ∷ rest) ≡ ok (0, h0 ∷ h1 ∷ h2 ∷ h3 ∷ ver ∷ rest)
unfolding get_image_version
get_image_version-headerless h0 h1 h2 h3 ver rest e = rw e
