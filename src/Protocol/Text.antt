-- ===== src/Protocol/Text.antt =====
-- protocol/validate.go, lines 17 to 22 and 400 to 507: validation of texts, identifiers and times.
-- The messages of `fmt.Errorf` are kept without the name of the field.
use mission_control_edge.Common.{
  ℕ, zero, suc, Bool, true, false, ◌&&◌, ◌||◌, not, Option, none, some, [], ◌∷◌, leb, ltb, eqb,
  if◌then◌else◌, length, all_of, any_of, Bytes, reject_if, Check,
}
use mission_control_edge.Common.Int.{ℤ, pos, ltb_ℤ}
use mission_control_edge.Protocol.Error.{GoError, plain}

abbrev pub between : ℕ → ℕ → ℕ → Bool
between lo hi b = leb lo b && leb b hi

abbrev pub is_digit : ℕ → Bool
is_digit = between b'0' b'9'

abbrev pub is_lower : ℕ → Bool
is_lower = between b'a' b'z'

abbrev pub is_upper : ℕ → Bool
is_upper = between b'A' b'Z'

abbrev pub is_alphanumeric : ℕ → Bool
is_alphanumeric b = is_upper b || is_lower b || is_digit b

-- `.`, `_` and `-`
abbrev pub is_joint : ℕ → Bool
is_joint b = eqb b b'.' || eqb b b'_' || eqb b b'-'

-- A pattern `^[first][rest]{0,maximum}$`.
first_and_rest : (ℕ → Bool) → (ℕ → Bool) → ℕ → Bytes → Bool
first_and_rest first rest maximum [] = false
first_and_rest first rest maximum (b ∷ bs) = first b && all_of rest bs && leb (length bs) maximum

-- idPattern
id_pattern : Bytes → Bool
unfolding first_and_rest
id_pattern = first_and_rest is_alphanumeric (λ b. is_alphanumeric b || is_joint b) 127

-- tokenPattern
token_pattern : Bytes → Bool
unfolding first_and_rest
token_pattern =
    first_and_rest (λ b. is_lower b || is_digit b) (λ b. is_lower b || is_digit b || is_joint b) 127

unfoldable pub validate_id : Bytes → Check GoError
unfolding id_pattern
validate_id value = reject_if (not (id_pattern value)) (plain "identifier is invalid")

unfoldable pub validate_token : Bytes → Check GoError
unfolding token_pattern
validate_token value = reject_if (not (token_pattern value)) (plain "token is invalid")

-- strings.ContainsAny(value, "\x00\r\n")
abbrev pub has_breaks : Bytes → Bool
has_breaks = any_of λ b. eqb b 0 || eqb b 13 || eqb b 10

-- The lead byte of a UTF-8 sequence gives the number of bytes that follow and the range of the
-- next one; the ranges rule out long forms, surrogates and values above U+10FFFF.
utf8_lead : ℕ → Option (ℕ × ℕ × ℕ)
utf8_lead b =
    if leb b 0x7f
    then some (0, 0x80, 0xbf)
    else if between 0xc2 0xdf b
    then some (1, 0x80, 0xbf)
    else if eqb b 0xe0
    then some (2, 0xa0, 0xbf)
    else if between 0xe1 0xec b || between 0xee 0xef b
    then some (2, 0x80, 0xbf)
    else if eqb b 0xed
    then some (2, 0x80, 0x9f)
    else if eqb b 0xf0
    then some (3, 0x90, 0xbf)
    else if between 0xf1 0xf3 b
    then some (3, 0x80, 0xbf)
    else if eqb b 0xf4
    then some (3, 0x80, 0x8f)
    else none

utf8_from : ℕ → ℕ → ℕ → Bytes → Bool
unfolding utf8_lead
utf8_from zero lo hi [] = true
utf8_from (suc n) lo hi [] = false
utf8_from zero lo hi (b ∷ bs) = elim (utf8_lead b) [
  | none ↦ false
  | some (n, l, h) ↦ utf8_from n l h bs
]
utf8_from (suc n) lo hi (b ∷ bs) = between lo hi b && utf8_from n 0x80 0xbf bs

-- utf8.ValidString
unfoldable pub utf8_valid : Bytes → Bool
unfolding utf8_from
utf8_valid = utf8_from 0 0x80 0xbf

unfoldable pub validate_text_range : ℕ → ℕ → Bytes → Check GoError
validate_text_range minimum maximum value =
    reject_if
      (ltb (length value) minimum
        || ltb maximum (length value)
        || not (utf8_valid value)
        || has_breaks value)
      (plain "text is invalid")

unfoldable pub validate_text : ℕ → Bytes → Check GoError
unfolding validate_text_range
validate_text maximum value = validate_text_range 1 maximum value

-- A `time.Time`: nanoseconds from the zero time, and whether the location is UTC.
pub record Time : Type 0 where
  pub instant : ℤ
  pub is_utc : Bool

abbrev is_zero : ℤ → Bool
is_zero t = not (ltb_ℤ t (pos 0)) && not (ltb_ℤ (pos 0) t)

unfoldable pub validate_time : Time → Check GoError
validate_time t =
    reject_if (is_zero t.instant || not t.is_utc) (plain "time must be a UTC timestamp")

-- a.After(b), a.Before(b)
abbrev pub after : Time → Time → Bool
after a b = ltb_ℤ b.instant a.instant

abbrev pub before : Time → Time → Bool
before a b = ltb_ℤ a.instant b.instant
