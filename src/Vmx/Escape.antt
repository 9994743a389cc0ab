-- ===== src/Vmx/Escape.antt =====
-- The escapes of internal/vmx/parser.go: `|XX` in a value stands for one byte.
use esxi_mover.Prelude.{
  ℕ, ◌+◌, ◌-◌, ◌*◌, ◌/◌, ◌%◌, ◌<◌, ◌≡◌, refl, Bool, true, false, Option, none, some, List, [], ◌∷◌,
  ◌&&◌, ◌||◌, not, ltb, leb, ◌==◌, if◌then◌else◌, all, All, arith, Bool-cases, inl, inr,
}
use esxi_mover.Prelude.Text.{Text, text, contains_any}
use esxi_mover.Types.{failure, Reply, got, lost, check_that}

-- The value of a hexadecimal digit.
unfoldable pub hex_value : ℕ → Option ℕ
hex_value c =
    if leb b'0' c && leb c b'9'
    then some (c - 48)
    else if leb b'A' c && leb c b'F'
    then some (c - 55)
    else if leb b'a' c && leb c b'f'
    then some (c - 87)
    else none

-- strconv.ParseUint of two digits, base 16.
unfoldable pub hex_byte : ℕ → ℕ → Option ℕ
unfolding hex_value
hex_byte d e = elim (hex_value d) [
  | none ↦ none
  | some h ↦ elim (hex_value e) [ none ↦ none | some l ↦ some (h * 16 + l) ]
]

unfoldable pub push : ℕ → Option Text → Option Text
push c none = none
push c (some s) = some (c ∷ s)

push_hex : Option ℕ → Option Text → Option Text
unfolding push
push_hex none rest = none
push_hex (some c) rest = push c rest

-- The loop of `decode`.
unfoldable pub decode_bytes : Text → Option Text
unfolding push push_hex
decode_bytes [] = some []
decode_bytes (c ∷ []) = if c == b'|' then none else some (c ∷ [])
decode_bytes (c ∷ d ∷ []) =
    let plain = decode_bytes (d ∷ []) in if c == b'|' then none else push c plain
decode_bytes (c ∷ d ∷ e ∷ s) =
    let escaped = push_hex (hex_byte d e) (decode_bytes s) in
    let plain = push c (decode_bytes (d ∷ e ∷ s)) in if c == b'|' then escaped else plain

-- The ranges of the bytes that must follow the first byte of a character.
continuation : ℕ → Option (List (ℕ × ℕ))
continuation c =
    if ltb c 0x80
    then some []
    else if leb 0xC2 c && leb c 0xDF
    then some ((0x80, 0xBF) ∷ [])
    else if c == 0xE0
    then some ((0xA0, 0xBF) ∷ (0x80, 0xBF) ∷ [])
    else if c == 0xED
    then some ((0x80, 0x9F) ∷ (0x80, 0xBF) ∷ [])
    else if leb 0xE1 c && leb c 0xEF
    then some ((0x80, 0xBF) ∷ (0x80, 0xBF) ∷ [])
    else if c == 0xF0
    then some ((0x90, 0xBF) ∷ (0x80, 0xBF) ∷ (0x80, 0xBF) ∷ [])
    else if leb 0xF1 c && leb c 0xF3
    then some ((0x80, 0xBF) ∷ (0x80, 0xBF) ∷ (0x80, 0xBF) ∷ [])
    else if c == 0xF4
    then some ((0x80, 0x8F) ∷ (0x80, 0xBF) ∷ (0x80, 0xBF) ∷ [])
    else none

-- utf8.ValidString.
unfoldable pub valid_utf8 : List (ℕ × ℕ) → Text → Bool
unfolding continuation
valid_utf8 [] [] = true
valid_utf8 (r ∷ rs) [] = false
valid_utf8 [] (c ∷ s) = elim (continuation c) [ none ↦ false | some rs ↦ valid_utf8 rs s ]
valid_utf8 ((lo, hi) ∷ rs) (c ∷ s) = leb lo c && leb c hi && valid_utf8 rs s

checked : Option Text → Reply Text
unfolding check_that text contains_any
checked none = lost (failure (text "invalid escape"))
checked (some s) =
    check_that (valid_utf8 [] s && not (contains_any s (0 ∷ []))) (failure (text "invalid text"))
      (got s)

unfoldable pub decode : Text → Reply Text
unfolding checked decode_bytes
decode s = checked (decode_bytes s)

-- `%02X`.
unfoldable pub hex_digit : ℕ → ℕ
hex_digit n = if ltb n 10 then n + 48 else n + 55

unfoldable pub must_escape : ℕ → Bool
must_escape c = c == b'|' || c == 34 || ltb c 32 || c == 127

unfoldable pub encode : Text → Text
unfolding hex_digit must_escape
encode [] = []
encode (c ∷ s) =
    let rest = encode s in
    if must_escape c then b'|' ∷ hex_digit (c / 16) ∷ hex_digit (c % 16) ∷ rest else c ∷ rest

-- A byte that is written as it is keeps its place before any text.
decode_bytes-plain :
    (c : ℕ) (s : Text) → (c == b'|') ≡ false → decode_bytes (c ∷ s) ≡ push c (decode_bytes s)
unfolding decode_bytes push
decode_bytes-plain c [] h = ground arith
decode_bytes-plain c (d ∷ []) h = ground arith
decode_bytes-plain c (d ∷ e ∷ s) h = ground arith

hex_value-hex_digit : (n : ℕ) → n < 16 → hex_value (hex_digit n) ≡ some n
unfolding hex_value hex_digit
hex_value-hex_digit n h = ground arith

hex_byte-hex_digit : (c : ℕ) → c < 256 → hex_byte (hex_digit (c / 16)) (hex_digit (c % 16)) ≡ some c
unfolding hex_byte
hex_byte-hex_digit c h = ground (arith, hex_value-hex_digit (c / 16), hex_value-hex_digit (c % 16))

decode_bytes-escape :
    (d e : ℕ) (s : Text)
    → decode_bytes (b'|' ∷ d ∷ e ∷ s) ≡ push_hex (hex_byte d e) (decode_bytes s)
unfolding decode_bytes
decode_bytes-escape d e s = refl

must_escape-bar : (c : ℕ) → must_escape c ≡ false → (c == b'|') ≡ false
unfolding must_escape
must_escape-bar c h = ground arith

-- The escapes of any bytes read back as these bytes.
decode_bytes-encode : (s : Text) → All (λ c. c < 256) s → decode_bytes (encode s) ≡ some s
unfolding encode push push_hex
decode_bytes-encode [] h = unfold decode_bytes in refl
decode_bytes-encode (c ∷ s) h = elim (Bool-cases (must_escape c)) [
  | inl escaped ↦
      rw escaped
        (rw decode_bytes-escape (rw (hex_byte-hex_digit c h.0) (rw (decode_bytes-encode s h.1))))
  | inr plain ↦ rw plain (
      rw (decode_bytes-plain c (encode s) (must_escape-bar c plain))
        (rw (decode_bytes-encode s h.1)))
]

-- A text of bytes that is valid UTF-8 and holds no zero byte, written with its escapes, is decoded
-- to itself.
pub decode-encode :
    (s : Text)
    → All (λ c. c < 256) s
    → valid_utf8 [] s ≡ true
    → contains_any s (0 ∷ []) ≡ false
    → decode (encode s) ≡ got s
unfolding decode check_that
decode-encode s bytes valid clean = rw (decode_bytes-encode s bytes) (rw (valid, clean))

-- Neither a quote nor a control byte.
unfoldable pub quote_free : ℕ → Bool
quote_free c = not (c == 34 || ltb c 32 || c == 127)

-- The written text of a value of bytes holds no quote and no control byte.
pub encode-quote_free : (s : Text) → All (λ c. c < 256) s → all quote_free (encode s) ≡ true
unfolding encode quote_free must_escape hex_digit
encode-quote_free [] h = refl
encode-quote_free (c ∷ s) h = ground (arith, encode-quote_free s h.1)
