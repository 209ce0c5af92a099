-- ===== src/Text/Utf8.antt =====
-- `bytes.decode("utf-8")`: strict UTF-8, one byte at a time. Overlong forms, surrogates and numbers
-- above 0x10ffff raise `UnicodeDecodeError`, by the range of the second byte.
pub mod Encoded
use fleet_telemetry_system.Prelude.{
  ℕ, zero, suc, ◌+◌, ◌-◌, ◌*◌, ◌<◌, ◌&&◌, ◌≡◌, refl, Option, none, some, List, [], ◌∷◌, arith, All,
  Outcome, ok, raised, unicode_error, ◌>>=◌, leb, eqb, if◌then◌else◌,
}
use fleet_telemetry_system.Text.Points.{Text}

-- The bytes that a character still wants, its bits so far, and the range of the next byte.
pub record Partial : Type 0 where
  pub want : ℕ
  pub bits : ℕ
  pub low : ℕ
  pub high : ℕ

abbrev pub idle : Partial
idle = record { want = 0; bits = 0; low = 0x80; high = 0xbf }

-- The partial character after a byte, with the code point if the byte completes one.
unfoldable pub first_byte : ℕ → Outcome (Partial × Option ℕ)
first_byte b =
    if leb b 0x7f
    then ok (idle, some b)
    else if leb 0xc2 b && leb b 0xdf
    then ok (record { want = 1; bits = b - 0xc0; low = 0x80; high = 0xbf }, none)
    else if eqb b 0xe0
    then ok (record { want = 2; bits = 0; low = 0xa0; high = 0xbf }, none)
    else if eqb b 0xed
    then ok (record { want = 2; bits = 0xd; low = 0x80; high = 0x9f }, none)
    else if leb 0xe1 b && leb b 0xef
    then ok (record { want = 2; bits = b - 0xe0; low = 0x80; high = 0xbf }, none)
    else if eqb b 0xf0
    then ok (record { want = 3; bits = 0; low = 0x90; high = 0xbf }, none)
    else if leb 0xf1 b && leb b 0xf3
    then ok (record { want = 3; bits = b - 0xf0; low = 0x80; high = 0xbf }, none)
    else if eqb b 0xf4
    then ok (record { want = 3; bits = 4; low = 0x80; high = 0x8f }, none)
    else raised unicode_error

unfoldable pub next_byte : ℕ → Partial → ℕ → Outcome (Partial × Option ℕ)
unfolding first_byte
next_byte zero p b = first_byte b
next_byte (suc more) p b =
    let bits = p.bits * 64 + (b - 0x80) in
    if leb p.low b && leb b p.high
    then (if eqb more 0
        then ok (idle, some bits)
        else ok (record { want = more; bits = bits; low = 0x80; high = 0xbf }, none))
    else raised unicode_error

abbrev pub emit : Option ℕ → Text → Text
emit none t = t
emit (some c) t = c ∷ t

abbrev at_end : ℕ → Outcome Text
at_end zero = ok []
at_end (suc _) = raised unicode_error

unfoldable pub decode_from : Partial → List ℕ → Outcome Text
unfolding next_byte
decode_from p [] = at_end p.want
decode_from p (b ∷ bs) =
    next_byte p.want p b >>= λ (p', c). decode_from p' bs >>= λ t. ok (emit c t)

unfoldable pub decode : List ℕ → Outcome Text
unfolding decode_from
decode bs = decode_from idle bs

two_bytes :
    decode (0x43 ∷ 0xc3 ∷ 0xa9 ∷ 0xf0 ∷ 0x9f ∷ 0x9a ∷ 0x97 ∷ []) ≡ ok (0x43 ∷ 0xe9 ∷ 0x1f697 ∷ [])
unfolding decode
two_bytes = refl

overlong : decode (0xc0 ∷ 0x80 ∷ []) ≡ raised unicode_error
unfolding decode
overlong = refl
