-- ===== src/Vesting/LogoChecks.antt =====
-- contracts/cw20-vesting/src/contract.rs: the checks of an uploaded logo, over its bytes.
use synergistic_juno_contrac.Base.{
  ℕ, Bool, true, false, List, [], ◌∷◌, ◌&&◌, ltb, ◌==◌, if◌then◌else◌, Result, ok, err, ◌>>◌,
  ensure, reject_if, length, ◌*◌,
}
use synergistic_juno_contrac.Vesting.{
  Logo, url, svg, png, Error, invalid_xml_preamble, logo_too_big, invalid_png_header,
}

abbrev pub logo_size_cap : ℕ
logo_size_cap = 5 * 1024

-- `starts_with` of a slice.
unfoldable pub starts_with : List ℕ → List ℕ → Bool
starts_with xs [] = true
starts_with [] (p ∷ ps) = false
starts_with (x ∷ xs) (p ∷ ps) = x == p && starts_with xs ps

-- `ends_with` of a slice.
unfoldable pub ends_with : List ℕ → List ℕ → Bool
unfolding starts_with
ends_with [] ps = starts_with ps [] && length ps == 0
ends_with (x ∷ xs) ps =
    let later = ends_with xs ps in
    if length (x ∷ xs) == length ps then starts_with (x ∷ xs) ps else later

-- The first part of `split_inclusive(|c| *c == b'>')`: up to the first `>`, or all.
unfoldable pub first_part : List ℕ → List ℕ
first_part [] = []
first_part (x ∷ xs) = if x == b'>' then x ∷ [] else x ∷ first_part xs

-- `<?xml ` and `?>`
abbrev pub prefix : List ℕ
prefix = b'<' ∷ b'?' ∷ b'x' ∷ b'm' ∷ b'l' ∷ 32 ∷ []

abbrev pub postfix : List ℕ
postfix = b'?' ∷ b'>' ∷ []

abbrev pub png_header : List ℕ
png_header = 0x89 ∷ b'P' ∷ b'N' ∷ b'G' ∷ 0x0d ∷ 0x0a ∷ 0x1a ∷ 0x0a ∷ []

-- No data has no first part.
unfoldable pub verify_xml_preamble : List ℕ → Result Error (Unit {0})
unfolding first_part starts_with ends_with
verify_xml_preamble [] = err invalid_xml_preamble
verify_xml_preamble (x ∷ xs) =
    let preamble = first_part (x ∷ xs) in
    ensure (starts_with preamble prefix && ends_with preamble postfix) invalid_xml_preamble

unfoldable pub verify_xml_logo : List ℕ → Result Error (Unit {0})
verify_xml_logo logo = do
  verify_xml_preamble logo
  reject_if (ltb logo_size_cap (length logo)) logo_too_big

unfoldable pub verify_png_logo : List ℕ → Result Error (Unit {0})
verify_png_logo logo = do
  reject_if (ltb logo_size_cap (length logo)) logo_too_big
  ensure (starts_with logo png_header) invalid_png_header

unfoldable pub verify_logo : Logo → Result Error (Unit {0})
verify_logo (svg logo) = verify_xml_logo logo
verify_logo (png logo) = verify_png_logo logo
verify_logo (url _) = ok tt
