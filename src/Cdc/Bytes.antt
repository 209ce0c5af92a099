-- ===== src/Cdc/Bytes.antt =====
-- What the decoder uses of Python's `bytes` and `struct`: subscripts and slices, with negative
-- positions counted from the end, and big-endian signed integers.
use Prim.Native.Nat.{min}
use fleet_telemetry_system.Prelude.{
  ℕ, zero, suc, ◌+◌, ◌-◌, ◌*◌, Option, none, some, List, [], ◌∷◌, Outcome, ok, raised, index_error,
  struct_error, value_error, length, leb, ltb, eqb, if◌then◌else◌,
}
use fleet_telemetry_system.Prelude.Int.{ℤ, pos, negsuc, sub_ℕ}

abbrev pub Bytes : Type 0
Bytes = List ℕ

module _ {A : Type 0} where
  abbrev pub get_elem? : List A → ℕ → Option A
  get_elem? [] i = none
  get_elem? (x ∷ xs) zero = some x
  get_elem? (x ∷ xs) (suc i) = get_elem? xs i

  abbrev pub take : ℕ → List A → List A
  take zero xs = []
  take (suc n) [] = []
  take (suc n) (x ∷ xs) = x ∷ take n xs

  abbrev pub drop : ℕ → List A → List A
  drop zero xs = xs
  drop (suc n) [] = []
  drop (suc n) (x ∷ xs) = drop n xs

-- A position of a slice, which never fails: too small is 0, too large the length.
abbrev pub clamp : ℕ → ℤ → ℕ
clamp len (pos n) = min n len
clamp len (negsuc n) = len - suc n

-- `buf[a:b]`
unfoldable pub slice : Bytes → ℤ → ℤ → Bytes
slice buf a b =
    let from = clamp (length buf) a in take (clamp (length buf) b - from) (drop from buf)

abbrev or_index_error : Option ℕ → Outcome ℕ
or_index_error none = raised index_error
or_index_error (some b) = ok b

-- `buf[i]`
unfoldable pub subscript : Bytes → ℤ → Outcome ℕ
subscript buf (pos n) = or_index_error (get_elem? buf n)
subscript buf (negsuc n) =
    if leb (suc n) (length buf)
    then or_index_error (get_elem? buf (length buf - suc n))
    else raised index_error

-- The bytes as a big-endian number.
abbrev pub unsigned : ℕ → Bytes → ℕ
unsigned n [] = n
unsigned n (b ∷ bs) = unsigned (n * 256 + b) bs

-- `half` is 2 ^ (8 * width - 1): two's complement.
abbrev pub to_signed : ℕ → ℕ → ℤ
to_signed half n = if ltb n half then pos n else sub_ℕ n (2 * half)

unfoldable pub unpack_at : ℕ → ℕ → Bytes → ℕ → Outcome ℤ
unpack_at width half buf off =
    if leb (off + width) (length buf)
    then ok (to_signed half (unsigned 0 (take width (drop off buf))))
    else raised struct_error

-- `struct.unpack_from(format, buf, off)` of one signed integer of `width` bytes.
unfoldable pub unpack_from : ℕ → ℕ → Bytes → ℤ → Outcome ℤ
unfolding unpack_at
unpack_from width half buf (pos n) = unpack_at width half buf n
unpack_from width half buf (negsuc n) =
    if leb (suc n) (length buf)
    then unpack_at width half buf (length buf - suc n)
    else raised struct_error

-- The first zero byte, counted from `i`.
abbrev pub zero_from : ℕ → Bytes → Outcome ℕ
zero_from i [] = raised value_error
zero_from i (b ∷ bs) = let later = zero_from (suc i) bs in if eqb b 0 then ok i else later

-- `buf.index(0, start)`
unfoldable pub index_of_zero : Bytes → ℤ → Outcome ℕ
index_of_zero buf start = let from = clamp (length buf) start in zero_from from (drop from buf)

-- `len(buf)`, the end of an open slice.
abbrev pub length_ℤ : Bytes → ℤ
length_ℤ buf = pos (length buf)
