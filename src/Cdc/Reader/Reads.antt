-- ===== src/Cdc/Reader/Reads.antt =====
-- What the methods of `_Reader` return on bytes that hold a field at the cursor.
use Prim.Native.Nat.{min}
use fleet_telemetry_system.Prelude.{
  ℕ, zero, suc, ◌+◌, ◌-◌, ◌/◌, ◌%◌, ◌^◌, ◌≤◌, ◌<◌, true, [], ◌∷◌, ◌++◌, ◌≡◌, refl, sym, ap, ◌∙◌,
  arith, ok, length, length-append, leb, le→leb, lt→ltb,
}
use fleet_telemetry_system.Prelude.Int.{pos}
use fleet_telemetry_system.Cdc.Bytes.{Bytes, take, drop, slice, unsigned, unpack_at, unpack_from}
use fleet_telemetry_system.Cdc.Reader.{Reader, char, int_of_width, int16, int32, take_bytes}

-- `rest` is what follows position `k`.
pub record IsAt (buf : Bytes) (k : ℕ) (rest : Bytes) : Type 0 where
  pub follows : drop k buf ≡ rest
  pub total : length buf ≡ k + length rest

abbrev pub reader : Bytes → ℕ → Reader
reader buf k = record { buf = buf; at = pos k }

drop-nil : (b : ℕ) → drop {A = ℕ} b [] ≡ []
drop-nil zero = refl
drop-nil (suc b) = refl

drop-drop : (a b : ℕ) (xs : Bytes) → drop (a + b) xs ≡ drop b (drop a xs)
drop-drop zero b xs = let e : 0 + b ≡ b = omega arith in rw e
drop-drop (suc a) b [] = let e : suc a + b ≡ suc (a + b) = omega arith in rw (e, drop-nil b)
drop-drop (suc a) b (x ∷ xs) =
    let e : suc a + b ≡ suc (a + b) = omega arith in rw e (drop-drop a b xs)

take-append : (xs ys : Bytes) → take (length xs) (xs ++ ys) ≡ xs
take-append [] ys = refl
take-append (x ∷ xs) ys = ap (λ l. x ∷ l) (take-append xs ys)

drop-append : (xs ys : Bytes) → drop (length xs) (xs ++ ys) ≡ ys
drop-append [] ys = refl
drop-append (x ∷ xs) ys = drop-append xs ys

-- Past a field of known bytes.
pub IsAt-append :
    (buf : Bytes) (k : ℕ) (xs rest : Bytes)
    → IsAt buf k (xs ++ rest)
    → IsAt buf (k + length xs) rest
IsAt-append buf k xs rest h = record {
  follows = drop-drop k (length xs) buf ∙ ap (drop (length xs)) h.follows ∙ drop-append xs rest;
  total = omega (arith, h.total, length-append xs rest);
}

slice-IsAt :
    (buf : Bytes) (k n : ℕ)
    → k + n ≤ length buf
    → slice buf (pos k) (pos (k + n)) ≡ take n (drop k buf)
unfolding slice
slice-IsAt buf k n h =
    let low : min k (length buf) ≡ k = ground arith in
    let high : min (k + n) (length buf) ≡ k + n = ground arith in
    let size : k + n - k ≡ n = omega arith in rw (low, high, size)

pub take_bytes-IsAt :
    (buf : Bytes) (k : ℕ) (xs rest : Bytes)
    → IsAt buf k (xs ++ rest)
    → take_bytes (pos (length xs)) (reader buf k) ≡ ok (xs, reader buf (k + length xs))
unfolding take_bytes
take_bytes-IsAt buf k xs rest h =
    let taken : slice buf (pos k) (pos (k + length xs)) ≡ xs =
      slice-IsAt buf k (length xs) (omega (arith, h.total, length-append xs rest))
      ∙ ap (take (length xs)) h.follows
      ∙ take-append xs rest in
    rw taken

pub char-IsAt :
    (buf : Bytes) (k b : ℕ) (rest : Bytes)
    → IsAt buf k (b ∷ rest)
    → char (reader buf k) ≡ ok (b ∷ [], reader buf (k + 1))
unfolding char
char-IsAt buf k b rest h =
    let taken : slice buf (pos k) (pos (k + 1)) ≡ b ∷ [] =
      slice-IsAt buf k 1 (omega (arith, h.total)) ∙ ap (take 1) h.follows in
    rw taken

int_of_width-IsAt :
    (width half n : ℕ) (buf : Bytes) (k : ℕ) (xs rest : Bytes)
    → IsAt buf k (xs ++ rest)
    → length xs ≡ width
    → unsigned 0 xs ≡ n
    → n < half
    → int_of_width width half (reader buf k) ≡ ok (pos n, reader buf (k + width))
unfolding int_of_width unpack_from unpack_at
int_of_width-IsAt width half n buf k xs rest h size value small =
    let field : take width (drop k buf) ≡ xs =
      ap (λ w. take w (drop k buf)) (sym size)
      ∙ ap (take (length xs)) h.follows
      ∙ take-append xs rest in
    let fits : leb (k + width) (length buf) ≡ true =
      le→leb (k + width) (length buf) (omega (arith, h.total, size, length-append xs rest)) in
    rw (fits, field, value, lt→ltb n half small)

-- The bytes of a number, the highest first.
abbrev pub bytes2 : ℕ → Bytes
bytes2 n = n / 256 ∷ n % 256 ∷ []

abbrev pub bytes4 : ℕ → Bytes
bytes4 n = n / 256 / 256 / 256 ∷ n / 256 / 256 % 256 ∷ n / 256 % 256 ∷ n % 256 ∷ []

pub int16-IsAt :
    (n : ℕ) (buf : Bytes) (k : ℕ) (rest : Bytes)
    → n < 2 ^ 15
    → IsAt buf k (bytes2 n ++ rest)
    → int16 (reader buf k) ≡ ok (pos n, reader buf (k + 2))
unfolding int16
int16-IsAt n buf k rest small h =
    int_of_width-IsAt 2 (2 ^ 15) n buf k (bytes2 n) rest h refl (omega arith) small

pub int32-IsAt :
    (n : ℕ) (buf : Bytes) (k : ℕ) (rest : Bytes)
    → n < 2 ^ 31
    → IsAt buf k (bytes4 n ++ rest)
    → int32 (reader buf k) ≡ ok (pos n, reader buf (k + 4))
unfolding int32
int32-IsAt n buf k rest small h =
    int_of_width-IsAt 4 (2 ^ 31) n buf k (bytes4 n) rest h refl (omega arith) small
