-- ===== src/Text/Utf8/Encoded.antt =====
-- `str.encode()`: what it writes of Unicode scalar values is decoded back.
use fleet_telemetry_system.Prelude.{
  ℕ, suc, ◌+◌, ◌-◌, ◌*◌, ◌/◌, ◌%◌, ◌<◌, ◌≤◌, ◌≡◌, refl, ap, ◌∙◌, ◌⊎◌, Option, none, some, List, [],
  ◌∷◌, ◌++◌, arith, All, Outcome, ok, raised, ◌>>=◌, ltb, eqb, if◌then◌else◌,
}
use fleet_telemetry_system.Text.Points.{Text}
use fleet_telemetry_system.Text.Utf8.{
  Partial, idle, first_byte, next_byte, emit, decode_from, decode,
}

-- A code point that is no surrogate.
pub record IsScalar (c : ℕ) : Type 0 where
  pub small : c < 0x110000
  pub no_surrogate : (c < 0xd800) ⊎ (0xdfff < c)

unfoldable pub encode_char : ℕ → List ℕ
encode_char c =
    if ltb c 0x80
    then c ∷ []
    else if ltb c 0x800
    then (0xc0 + c / 64) ∷ (0x80 + c % 64) ∷ []
    else if ltb c 0x10000
    then (0xe0 + c / 4096) ∷ (0x80 + c / 64 % 64) ∷ (0x80 + c % 64) ∷ []
    else (0xf0 + c / 262144) ∷ (0x80 + c / 4096 % 64) ∷ (0x80 + c / 64 % 64) ∷ (0x80 + c % 64) ∷ []

unfoldable pub encode : Text → List ℕ
unfolding encode_char
encode [] = []
encode (c ∷ t) = encode_char c ++ encode t

first_of_two :
    (b : ℕ)
    → 0xc2 ≤ b
    → b ≤ 0xdf
    → first_byte b ≡ ok (record { want = 1; bits = b - 0xc0; low = 0x80; high = 0xbf }, none)
unfolding first_byte
first_of_two b h k = ground arith

first_of_three :
    (b : ℕ)
    → 0xe0 ≤ b
    → b ≤ 0xef
    → first_byte b
      ≡ ok (
        record {
          want = 2;
          bits = b - 0xe0;
          low = if eqb b 0xe0 then 0xa0 else 0x80;
          high = if eqb b 0xed then 0x9f else 0xbf;
        },
        none,
      )
unfolding first_byte
first_of_three b h k = ground arith

first_of_four :
    (b : ℕ)
    → 0xf0 ≤ b
    → b ≤ 0xf4
    → first_byte b
      ≡ ok (
        record {
          want = 3;
          bits = b - 0xf0;
          low = if eqb b 0xf0 then 0x90 else 0x80;
          high = if eqb b 0xf4 then 0x8f else 0xbf;
        },
        none,
      )
unfolding first_byte
first_of_four b h k = ground arith

middle :
    (m : ℕ) (p : Partial) (b : ℕ)
    → p.low ≤ b
    → b ≤ p.high
    → next_byte (suc (suc m)) p b
      ≡ ok (record { want = suc m; bits = p.bits * 64 + (b - 0x80); low = 0x80; high = 0xbf }, none)
unfolding next_byte
middle m p b h k = ground arith

last :
    (p : Partial) (b : ℕ)
    → p.low ≤ b
    → b ≤ p.high
    → next_byte 1 p b ≡ ok (idle, some (p.bits * 64 + (b - 0x80)))
unfolding next_byte
last p b h k = ground arith

returned : (r : Outcome Text) → (r >>= λ t. ok t) ≡ r
returned (ok t) = refl
returned (raised e) = refl

-- One byte, given what it comes to.
step :
    (p p' : Partial) (b : ℕ) (c : Option ℕ) (bs : List ℕ)
    → next_byte p.want p b ≡ ok (p', c)
    → decode_from p (b ∷ bs) ≡ (decode_from p' bs >>= λ t. ok (emit c t))
unfolding decode_from
step p p' b c bs h = rw h refl

step_on :
    (p p' : Partial) (b : ℕ) (bs : List ℕ)
    → next_byte p.want p b ≡ ok (p', none)
    → decode_from p (b ∷ bs) ≡ decode_from p' bs
step_on p p' b bs h = step p p' b none bs h ∙ returned (decode_from p' bs)

-- The rest of the text after a character.
abbrev then_text : ℕ → Outcome Text → Outcome Text
then_text c r = r >>= λ t. ok (c ∷ t)

one_byte :
    (c : ℕ) (bs : List ℕ) → c < 0x80 → decode_from idle (c ∷ bs) ≡ then_text c (decode_from idle bs)
unfolding next_byte first_byte
one_byte c bs h = step idle idle c (some c) bs (ground (arith, h))

two_bytes :
    (c : ℕ) (bs : List ℕ)
    → 0x80 ≤ c
    → c < 0x800
    → decode_from idle ((0xc0 + c / 64) ∷ (0x80 + c % 64) ∷ bs) ≡ then_text c (decode_from idle bs)
unfolding next_byte
two_bytes c bs h k =
    let p : Partial = record { want = 1; bits = 0xc0 + c / 64 - 0xc0; low = 0x80; high = 0xbf } in
    let bits : p.bits * 64 + (0x80 + c % 64 - 0x80) ≡ c = omega arith in
    step_on idle p (0xc0 + c / 64) ((0x80 + c % 64) ∷ bs)
      (first_of_two (0xc0 + c / 64) (omega arith) (omega arith))
    ∙ step p idle (0x80 + c % 64) (some (p.bits * 64 + (0x80 + c % 64 - 0x80))) bs
        (last p (0x80 + c % 64) (omega arith) (omega arith))
    ∙ ap (λ d. then_text d (decode_from idle bs)) bits

three_bytes :
    (c : ℕ) (bs : List ℕ)
    → 0x800 ≤ c
    → c < 0x10000
    → (c < 0xd800) ⊎ (0xdfff < c)
    → decode_from idle ((0xe0 + c / 4096) ∷ (0x80 + c / 64 % 64) ∷ (0x80 + c % 64) ∷ bs)
      ≡ then_text c (decode_from idle bs)
unfolding next_byte
three_bytes c bs h k scalar =
    let b₁ = 0xe0 + c / 4096 in
    let b₂ = 0x80 + c / 64 % 64 in
    let b₃ = 0x80 + c % 64 in
    let p₁ : Partial = record {
      want = 2;
      bits = b₁ - 0xe0;
      low = if eqb b₁ 0xe0 then 0xa0 else 0x80;
      high = if eqb b₁ 0xed then 0x9f else 0xbf;
    } in
    let p₂ : Partial = record {
      want = 1;
      bits = p₁.bits * 64 + (b₂ - 0x80);
      low = 0x80;
      high = 0xbf;
    } in
    let bits : p₂.bits * 64 + (b₃ - 0x80) ≡ c = omega arith in
    step_on idle p₁ b₁ (b₂ ∷ b₃ ∷ bs) (first_of_three b₁ (omega arith) (omega arith))
    ∙ step_on p₁ p₂ b₂ (b₃ ∷ bs) (middle 0 p₁ b₂ (ground arith) (ground (arith, scalar)))
    ∙ step p₂ idle b₃ (some (p₂.bits * 64 + (b₃ - 0x80))) bs
        (last p₂ b₃ (omega arith) (omega arith))
    ∙ ap (λ d. then_text d (decode_from idle bs)) bits

four_bytes :
    (c : ℕ) (bs : List ℕ)
    → 0x10000 ≤ c
    → c < 0x110000
    → decode_from idle
        ((0xf0 + c / 262144) ∷ (0x80 + c / 4096 % 64) ∷ (0x80 + c / 64 % 64) ∷ (0x80 + c % 64) ∷ bs)
      ≡ then_text c (decode_from idle bs)
unfolding next_byte
four_bytes c bs h k =
    let b₁ = 0xf0 + c / 262144 in
    let b₂ = 0x80 + c / 4096 % 64 in
    let b₃ = 0x80 + c / 64 % 64 in
    let b₄ = 0x80 + c % 64 in
    let p₁ : Partial = record {
      want = 3;
      bits = b₁ - 0xf0;
      low = if eqb b₁ 0xf0 then 0x90 else 0x80;
      high = if eqb b₁ 0xf4 then 0x8f else 0xbf;
    } in
    let p₂ : Partial = record {
      want = 2;
      bits = p₁.bits * 64 + (b₂ - 0x80);
      low = 0x80;
      high = 0xbf;
    } in
    let p₃ : Partial = record {
      want = 1;
      bits = p₂.bits * 64 + (b₃ - 0x80);
      low = 0x80;
      high = 0xbf;
    } in
    let bits : p₃.bits * 64 + (b₄ - 0x80) ≡ c = omega arith in
    step_on idle p₁ b₁ (b₂ ∷ b₃ ∷ b₄ ∷ bs) (first_of_four b₁ (omega arith) (omega arith))
    ∙ step_on p₁ p₂ b₂ (b₃ ∷ b₄ ∷ bs) (middle 1 p₁ b₂ (ground arith) (ground arith))
    ∙ step_on p₂ p₃ b₃ (b₄ ∷ bs) (middle 0 p₂ b₃ (omega arith) (omega arith))
    ∙ step p₃ idle b₄ (some (p₃.bits * 64 + (b₄ - 0x80))) bs
        (last p₃ b₄ (omega arith) (omega arith))
    ∙ ap (λ d. then_text d (decode_from idle bs)) bits

encoded_char :
    (c : ℕ) (bs : List ℕ)
    → IsScalar c
    → decode_from idle (encode_char c ++ bs) ≡ then_text c (decode_from idle bs)
unfolding encode_char
encoded_char c bs s = ground (
  arith,
  s.small,
  s.no_surrogate,
  one_byte c bs,
  two_bytes c bs,
  three_bytes c bs,
  four_bytes c bs,
)

decode_from-encode : (t : Text) → All IsScalar t → decode_from idle (encode t) ≡ ok t
unfolding encode decode_from
decode_from-encode [] h = refl
decode_from-encode (c ∷ t) h =
    encoded_char c (encode t) h.0 ∙ ap (then_text c) (decode_from-encode t h.1)

-- Every text of scalar values is decoded from its bytes.
pub decode-encode : (t : Text) → All IsScalar t → decode (encode t) ≡ ok t
unfolding decode
decode-encode = decode_from-encode

pub ascii-IsScalar : (t : Text) → All (λ c. c < 0x80) t → All IsScalar t
ascii-IsScalar [] h = tt
ascii-IsScalar (c ∷ t) h = (
  record { small = omega (arith, h.0); no_surrogate = ground (arith, h.0) },
  ascii-IsScalar t h.1,
)
