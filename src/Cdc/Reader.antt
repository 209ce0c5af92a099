-- ===== src/Cdc/Reader.antt =====
-- `_Reader` of app/cdc_consumer.py: a cursor over the bytes of one message.
pub mod Reads
use fleet_telemetry_system.Prelude.{ℕ, ◌+◌, ◌^◌, Outcome, ok, ◌>>=◌}
use fleet_telemetry_system.Prelude.Int.{ℤ, pos, add_ℤ}
use fleet_telemetry_system.Text.{Text}
use fleet_telemetry_system.Text.Utf8.{decode}
use fleet_telemetry_system.Cdc.Bytes.{Bytes, slice, subscript, unpack_from, index_of_zero}

pub record Reader : Type 0 where
  pub buf : Bytes
  pub at : ℤ

-- What a method returns, with the cursor after it. A reader is not used after an exception.
abbrev pub Read : Type 0 → Type 0
Read A = Reader → Outcome (A × Reader)

abbrev advance : Reader → ℕ → Reader
advance r n = record r { at = add_ℤ r.at (pos n) }

unfoldable pub int8 : Read ℕ
unfolding subscript
int8 r = subscript r.buf r.at >>= λ v. ok (v, advance r 1)

unfoldable pub char : Read Bytes
unfolding slice
char r = ok (slice r.buf r.at (add_ℤ r.at (pos 1)), advance r 1)

unfoldable pub int_of_width : ℕ → ℕ → Read ℤ
unfolding unpack_from
int_of_width width half r = unpack_from width half r.buf r.at >>= λ v. ok (v, advance r width)

unfoldable pub int16 : Read ℤ
unfolding int_of_width
int16 = int_of_width 2 (2 ^ 15)

unfoldable pub int32 : Read ℤ
unfolding int_of_width
int32 = int_of_width 4 (2 ^ 31)

unfoldable pub int64 : Read ℤ
unfolding int_of_width
int64 = int_of_width 8 (2 ^ 63)

unfoldable pub string : Read Text
unfolding index_of_zero slice decode
string r = index_of_zero r.buf r.at >>= λ end.
    decode (slice r.buf r.at (pos end)) >>= λ s. ok (s, record r { at = pos (end + 1) })

-- `n` may be negative: the slice is then empty or counted from the end, and the cursor goes back.
unfoldable pub take_bytes : ℤ → Read Bytes
unfolding slice
take_bytes n r = let stop = add_ℤ r.at n in ok (slice r.buf r.at stop, record r { at = stop })
