-- ===== src/Cdc/Tuple.antt =====
-- `_read_tuple` of app/cdc_consumer.py, and what `_cache_relation` reads.
use fleet_telemetry_system.Prelude.{
  ℕ, zero, suc, List, [], ◌∷◌, Outcome, ok, raised, index_error, ◌>>=◌, if◌then◌else◌,
}
use fleet_telemetry_system.Prelude.Int.{ℤ, pos, negsuc}
use fleet_telemetry_system.Text.{Text, codes, same_text}
use fleet_telemetry_system.Text.Utf8.{decode}
use fleet_telemetry_system.Cdc.Bytes.{Bytes}
use fleet_telemetry_system.Cdc.Reader.{Read, Reader, int8, char, int16, int32, string, take_bytes}
use fleet_telemetry_system.Cdc.Event.{Cell, null, unchanged, text, Row, assign}

-- `range(n)` has this many elements.
abbrev pub range_length : ℤ → ℕ
range_length (pos n) = n
range_length (negsuc _) = 0

-- `columns[i]`, of the columns from `i` on, with those after it.
abbrev next_name : List Text → Outcome (Text × List Text)
next_name [] = raised index_error
next_name (c ∷ cs) = ok (c, cs)

unfoldable pub text_cell : Read Cell
text_cell r = do
  (length, r₁) ← int32 r
  (bytes, r₂) ← take_bytes length r₁
  t ← decode bytes
  ok (text t, r₂)

unfoldable pub read_cell : Bytes → Read Cell
read_cell kind r =
    if same_text kind (codes "n")
    then ok (null, r)
    else if same_text kind (codes "u")
    then ok (unchanged, r)
    else text_cell r

unfoldable pub read_cells : ℕ → List Text → Row → Read Row
read_cells zero columns values r = ok (values, r)
read_cells (suc n) columns values r = do
  (kind, r₁) ← char r
  (name, rest) ← next_name columns
  (cell, r₂) ← read_cell kind r₁
  read_cells n rest (assign name cell values) r₂

unfoldable pub read_tuple : List Text → Read Row
read_tuple columns r = do (ncols, r₁) ← int16 r; read_cells (range_length ncols) columns [] r₁

unfoldable pub read_columns : ℕ → Read (List Text)
read_columns zero r = ok ([], r)
read_columns (suc n) r = do
  (flags, r₁) ← int8 r
  (name, r₂) ← string r₁
  (type_oid, r₃) ← int32 r₂
  (modifier, r₄) ← int32 r₃
  (names, r₅) ← read_columns n r₄
  ok (name ∷ names, r₅)

-- A relation's OID, name and columns.
unfoldable pub read_relation : Reader → Outcome (ℤ × (Text × List Text))
read_relation r = do
  (oid, r₁) ← int32 r
  (namespace, r₂) ← string r₁
  (relname, r₃) ← string r₂
  (identity, r₄) ← int8 r₃
  (ncols, r₅) ← int16 r₄
  (columns, r₆) ← read_columns (range_length ncols) r₅
  ok (oid, (relname, columns))
