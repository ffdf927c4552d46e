-- ===== src/Mesh/Probe.antt =====
-- internal/daemon/mesh/meshsock/frame.go: the signed probe frames. HMAC-SHA256 is a parameter.
pub mod Decoding
pub mod RoundTrip
use zattera_dev.Base.{
  ℕ, zero, suc, ◌+◌, ◌-◌, ◌%◌, ◌^◌, Bool, true, false, not, ◌&&◌, ◌||◌, List, [], ◌∷◌, ◌++◌, Option,
  none, some, length, take, drop, slice, ltb, ◌==◌, if◌then◌else◌,
}
use zattera_dev.Wire.{Bytes, Result, ok, err, be, of_be, bytes_eq}

abbrev pub frame_magic : ℕ
frame_magic = 255

abbrev pub probe_ping : ℕ
probe_ping = 1

abbrev pub probe_pong : ℕ
probe_pong = 2

-- Magic, type, eight bytes of transaction id, two of payload length.
abbrev pub frame_header_len : ℕ
frame_header_len = 12

abbrev pub frame_mac_len : ℕ
frame_mac_len = 32

abbrev pub max_frame_len : ℕ
max_frame_len = 512

pub data FrameError : Type 0 where
  bad_frame : FrameError

-- What decodeFrame returns.
pub record Frame : Type 0 where
  pub typ : ℕ
  pub tx_id : ℕ
  pub payload : Bytes
  pub signed : Bytes
  pub mac : Bytes

-- `b[i]`, in range.
unfoldable pub byte_at : ℕ → Bytes → ℕ
byte_at i [] = 0
byte_at zero (b ∷ bs) = b
byte_at (suc i) (b ∷ bs) = byte_at i bs

unfoldable pub is_probe_frame : Bytes → Bool
unfolding byte_at
is_probe_frame pkt = ltb 0 (length pkt) && (byte_at 0 pkt == frame_magic)

-- The signed region: everything before the code.
unfoldable pub unsigned_frame : ℕ → ℕ → Bytes → Bytes
unsigned_frame typ tx_id payload =
    (frame_magic ∷ typ ∷ []) ++ (be 8 tx_id ++ (be 2 (length payload % 2 ^ 16) ++ payload))

unfoldable pub decode_frame : Bytes → Result FrameError Frame
decode_frame pkt =
    let plen = of_be (slice 10 12 pkt) in
    if ltb (length pkt) (frame_header_len + frame_mac_len)
      || ltb max_frame_len (length pkt)
      || not (byte_at 0 pkt == frame_magic)
    then err bad_frame
    else if not (frame_header_len + plen + frame_mac_len == length pkt)
    then err bad_frame
    else ok (record {
      typ = byte_at 1 pkt;
      tx_id = of_be (slice 2 10 pkt);
      payload = slice frame_header_len (frame_header_len + plen) pkt;
      signed = take (length pkt - frame_mac_len) pkt;
      mac = drop (length pkt - frame_mac_len) pkt;
    })

-- Key, then message.
module _ (hmac : Bytes → Bytes → Bytes) where
  unfoldable pub encode_frame : ℕ → ℕ → Bytes → Bytes → Bytes
  encode_frame typ tx_id payload key =
      let buf = unsigned_frame typ tx_id payload in buf ++ hmac key buf

  unfoldable pub verify_frame : Bytes → Bytes → Bytes → Bool
  verify_frame signed mac key = bytes_eq mac (hmac key signed)

abbrev pub separator : ℕ
separator = 124

unfoldable pub pong_payload : Bytes → Bytes → Bytes
pong_payload ponder_id observed = ponder_id ++ ((separator ∷ []) ++ observed)

-- The first `|` splits the payload.
unfoldable pub split_pong : Bytes → Option (Bytes × Bytes)
split_pong [] = none
split_pong (c ∷ s) =
    let rest = split_pong s in
    if c == separator
    then some ([], s)
    else elim rest [ none ↦ none | some (ponder_id, observed) ↦ some (c ∷ ponder_id, observed) ]
