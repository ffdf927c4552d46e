-- ===== src/Mesh/Relay.antt =====
-- internal/daemon/mesh/relay/frame.go: the frames of the TCP relay, and readLoop of server.go. A
-- connection is the sequence of the bytes written to it and not read yet.
pub mod RoundTrip
pub mod Server
use zattera_dev.Base.{
  ℕ, zero, suc, ◌+◌, ◌%◌, ◌^◌, Bool, not, List, [], ◌∷◌, ◌++◌, Option, none, some, length, take,
  drop, ltb, ◌==◌, if◌then◌else◌,
}
use zattera_dev.Wire.{Bytes, Result, ok, err, ◌>>=◌, read_or, read_full, be, of_be}

abbrev pub node_id_len : ℕ
node_id_len = 26

abbrev pub max_payload : ℕ
max_payload = 2048

-- `short_read` is io.ReadFull's error, io.EOF or io.ErrUnexpectedEOF: the code tells them apart only to
-- log the latter.
pub data RelayError : Type 0 where
  bad_node_id payload_cap short_read : RelayError

unfoldable pub write_frame : Bytes → Bytes → Result RelayError Bytes
write_frame node_id payload =
    if not (length node_id == node_id_len)
    then err bad_node_id
    else if ltb max_payload (length payload)
    then err payload_cap
    else ok (node_id ++ (be 2 (length payload % 2 ^ 16) ++ payload))

-- One frame and what the connection holds after it.
unfoldable pub read_frame : Bytes → Result RelayError ((Bytes × Bytes) × Bytes)
read_frame conn = do
  (hdr, body) ← read_or short_read (node_id_len + 2) conn
  if ltb max_payload (of_be (drop node_id_len hdr)) then err payload_cap else do
    (payload, rest) ← read_or short_read (of_be (drop node_id_len hdr)) body
    ok ((take node_id_len hdr, payload), rest)

-- The `for` of readLoop: the frames of a connection up to the error that ends it. `none` is no outcome
-- of the code: the fuel ran out.
unfoldable pub read_loop : ℕ → Bytes → List (Bytes × Bytes) × Option RelayError
read_loop zero conn = ([], none)
read_loop (suc fuel) conn = elim (read_frame conn) [
  | err e ↦ ([], some e)
  | ok (frame, rest) ↦ let more = read_loop fuel rest in (frame ∷ more.0, more.1)
]

-- Each frame takes 28 bytes at least, so that `length conn` rounds are enough.
unfoldable pub read_all : Bytes → List (Bytes × Bytes) × Option RelayError
read_all conn = read_loop (suc (length conn)) conn

-- The frames written one after the other; the first refusal ends the writing.
unfoldable pub write_all : List (Bytes × Bytes) → Result RelayError Bytes
write_all [] = ok []
write_all ((node_id, payload) ∷ frames) = do
  front ← write_frame node_id payload
  back ← write_all frames
  ok (front ++ back)
