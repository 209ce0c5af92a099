-- ===== src/Cdc/Decode/Encoded.antt =====
-- Inserts as pgoutput encodes them, and the rows that the decoder reads from them.
use fleet_telemetry_system.Prelude.{
  ℕ, ◌+◌, ◌^◌, ◌<◌, List, [], ◌∷◌, ◌++◌, ◌≡◌, refl, arith, ok, chain_ok, length, All,
}
use fleet_telemetry_system.Text.{Text}
use fleet_telemetry_system.Text.Utf8.Encoded.{IsScalar, encode, decode-encode}
use fleet_telemetry_system.Cdc.Bytes.{Bytes}
use fleet_telemetry_system.Cdc.Reader.{char}
use fleet_telemetry_system.Cdc.Reader.Reads.{
  IsAt, reader, IsAt-append, take_bytes-IsAt, char-IsAt, bytes2, bytes4, int16-IsAt, int32-IsAt,
}
use fleet_telemetry_system.Cdc.Event.{Cell, null, unchanged, text, Row, assign}
use fleet_telemetry_system.Cdc.Tuple.{read_cell, read_cells, read_tuple, text_cell}

-- A column of a TupleData: its kind, and for a text its length and bytes.
abbrev pub encode_cell : Cell → Bytes
encode_cell null = 110 ∷ []
encode_cell unchanged = 117 ∷ []
encode_cell (text t) = 116 ∷ (bytes4 (length (encode t)) ++ encode t)

abbrev pub encode_cells : List Cell → Bytes
encode_cells [] = []
encode_cells (c ∷ cs) = encode_cell c ++ encode_cells cs

abbrev pub encode_tuple : List Cell → Bytes
encode_tuple cs = bytes2 (length cs) ++ encode_cells cs

abbrev pub encode_insert : ℕ → List Cell → Bytes
encode_insert oid cs = 73 ∷ (bytes4 oid ++ (78 ∷ encode_tuple cs))

-- A text of Unicode scalar values whose length in bytes the protocol can hold.
abbrev pub IsEncodable : Cell → Type 0
IsEncodable null = Unit
IsEncodable unchanged = Unit
IsEncodable (text t) = All IsScalar t × (length (encode t) < 2 ^ 31)

-- The row that the decoder builds: each column assigned in turn.
abbrev pub assign_all : List Text → List Cell → Row → Row
assign_all [] cs row = row
assign_all (n ∷ ns) [] row = row
assign_all (n ∷ ns) (c ∷ cs) row = assign_all ns cs (assign n c row)

text_cell-IsAt :
    (t : Text) (buf : Bytes) (k : ℕ) (rest : Bytes)
    → IsEncodable (text t)
    → IsAt buf k ((bytes4 (length (encode t)) ++ encode t) ++ rest)
    → text_cell (reader buf k) ≡ ok (text t, reader buf (k + 4 + length (encode t)))
unfolding text_cell
text_cell-IsAt t buf k rest (scalars, short) h =
    let bytes = encode t in
    let h₀ : IsAt buf k (bytes4 (length bytes) ++ (bytes ++ rest)) = h in
    let after : IsAt buf (k + 4) (bytes ++ rest) =
      IsAt-append buf k (bytes4 (length bytes)) (bytes ++ rest) h₀ in
    chain_ok _ (int32-IsAt (length bytes) buf k (bytes ++ rest) short h₀) (
      chain_ok _ (take_bytes-IsAt buf (k + 4) bytes rest after)
        (chain_ok _ (decode-encode t scalars) refl))

-- A cell is read back, and the cursor is then at what follows it.
cell-IsAt :
    (c : Cell) (buf : Bytes) (k : ℕ) (rest : Bytes)
    → IsEncodable c
    → IsAt buf k (encode_cell c ++ rest)
    → (kind : Bytes) × (j : ℕ) × (char (reader buf k) ≡ ok (kind, reader buf (k + 1)))
      × (read_cell kind (reader buf (k + 1)) ≡ ok (c, reader buf j))
      × IsAt buf j rest
unfolding read_cell
cell-IsAt null buf k rest e h =
    (110 ∷ [], k + 1, char-IsAt buf k 110 rest h, refl, IsAt-append buf k (110 ∷ []) rest h)
cell-IsAt unchanged buf k rest e h =
    (117 ∷ [], k + 1, char-IsAt buf k 117 rest h, refl, IsAt-append buf k (117 ∷ []) rest h)
cell-IsAt (text t) buf k rest e h =
    let bytes = encode t in
    let field = bytes4 (length bytes) ++ bytes in
    let after : IsAt buf (k + 1) (field ++ rest) = IsAt-append buf k (116 ∷ []) (field ++ rest) h in
    let after₁ : IsAt buf (k + 1 + 4) (bytes ++ rest) =
      IsAt-append buf (k + 1) (bytes4 (length bytes)) (bytes ++ rest) after in
    (
      116 ∷ [],
      k + 1 + 4 + length bytes,
      char-IsAt buf k 116 (field ++ rest) h,
      text_cell-IsAt t buf (k + 1) rest e after,
      IsAt-append buf (k + 1 + 4) bytes rest after₁,
    )

read_cells-IsAt :
    (names : List Text) (cs : List Cell) (row : Row) (buf : Bytes) (k : ℕ)
    → length names ≡ length cs
    → All IsEncodable cs
    → IsAt buf k (encode_cells cs)
    → (j : ℕ) × (read_cells (length cs) names row (reader buf k)
        ≡ ok (assign_all names cs row, reader buf j))
unfolding read_cells
read_cells-IsAt [] [] row buf k n e h = (k, refl)
read_cells-IsAt [] (c ∷ cs) row buf k n e h = cc
read_cells-IsAt (name ∷ names) [] row buf k n e h = cc
read_cells-IsAt (name ∷ names) (c ∷ cs) row buf k n e h =
    let (kind, j, tag, cell, next) = cell-IsAt c buf k (encode_cells cs) e.0 h in
    let (i, later) =
      read_cells-IsAt names cs (assign name c row) buf j (omega (arith, n)) e.1 next in
    (i, chain_ok _ tag (chain_ok _ cell later))

pub read_tuple-IsAt :
    (names : List Text) (cs : List Cell) (buf : Bytes) (k : ℕ)
    → length names ≡ length cs
    → length cs < 2 ^ 15
    → All IsEncodable cs
    → IsAt buf k (encode_tuple cs)
    → (j : ℕ) × (read_tuple names (reader buf k) ≡ ok (assign_all names cs [], reader buf j))
unfolding read_tuple
read_tuple-IsAt names cs buf k n small e h =
    let (j, all) =
      read_cells-IsAt names cs [] buf (k + 2) n e
        (IsAt-append buf k (bytes2 (length cs)) (encode_cells cs) h) in
    (j, chain_ok _ (int16-IsAt (length cs) buf k (encode_cells cs) small h) all)
