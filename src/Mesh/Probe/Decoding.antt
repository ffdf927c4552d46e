-- ===== src/Mesh/Probe/Decoding.antt =====
-- The checks of decodeFrame, and the parts it returns where they pass.
use zattera_dev.Base.{
  ℕ, ◌+◌, ◌-◌, ◌%◌, ◌^◌, ◌≤◌, ◌≡◌, refl, sym, arith, Bool, true, false, not, ◌||◌, ◌++◌, length,
  take, drop, slice, ltb, ◌==◌, length-append, if◌then◌else◌,
}
use zattera_dev.Wire.{Bytes, Result, ok, err, be, of_be, le}
use zattera_dev.Wire.Words.{length-be}
use zattera_dev.Mesh.Probe.{
  frame_magic, frame_header_len, frame_mac_len, max_frame_len, FrameError, bad_frame, Frame,
  byte_at, unsigned_frame, decode_frame,
}

-- The longest payload of a frame.
abbrev pub max_probe_payload : ℕ
max_probe_payload = 468

pub length-unsigned :
    (typ tx_id : ℕ) (payload : Bytes)
    → length (unsigned_frame typ tx_id payload) ≡ 12 + length payload
unfolding unsigned_frame
length-unsigned typ tx_id payload = omega (
  arith,
  length-append (be 8 tx_id) (be 2 (length payload % 2 ^ 16) ++ payload),
  length-be 8 tx_id,
  length-append (be 2 (length payload % 2 ^ 16)) payload,
  length-be 2 (length payload % 2 ^ 16),
)

module _ (typ tx_id : ℕ) (payload code : Bytes) where
  pub magic_at : byte_at 0 (unsigned_frame typ tx_id payload ++ code) ≡ frame_magic
  unfolding unsigned_frame byte_at
  magic_at = refl

  pub type_at : byte_at 1 (unsigned_frame typ tx_id payload ++ code) ≡ typ
  unfolding unsigned_frame byte_at
  type_at = refl

  pub tx_at : slice 2 10 (unsigned_frame typ tx_id payload ++ code) ≡ be 8 tx_id
  unfolding unsigned_frame be le
  tx_at = refl

  pub length_at :
      slice 10 12 (unsigned_frame typ tx_id payload ++ code) ≡ be 2 (length payload % 2 ^ 16)
  unfolding unsigned_frame be le
  length_at = refl

  pub payload_at : drop 12 (unsigned_frame typ tx_id payload ++ code) ≡ payload ++ code
  unfolding unsigned_frame be le
  payload_at = refl

-- What decodeFrame returns for a packet that passes its checks.
abbrev pub parts : Bytes → Frame
parts pkt = record {
  typ = byte_at 1 pkt;
  tx_id = of_be (slice 2 10 pkt);
  payload = slice frame_header_len (frame_header_len + of_be (slice 10 12 pkt)) pkt;
  signed = take (length pkt - frame_mac_len) pkt;
  mac = drop (length pkt - frame_mac_len) pkt;
}

-- The checks of decodeFrame.
abbrev pub IsWellFormed : Bytes → Type 0
IsWellFormed pkt =
    (length pkt ≤ max_frame_len)
    × (byte_at 0 pkt ≡ frame_magic)
    × (frame_header_len + of_be (slice 10 12 pkt) + frame_mac_len ≡ length pkt)

pub decode_ok : (pkt : Bytes) → IsWellFormed pkt → decode_frame pkt ≡ ok (parts pkt)
unfolding decode_frame
decode_ok pkt (short, magic, plen) = ground arith

-- A check that did not refuse was false.
passed {ℓ} :
    {E : Type 0} {A : Type ℓ} (check : Bool) (r : Result E A) (e : E) (a : A)
    → (if check then err e else r) ≡ ok a
    → (check ≡ false) × (r ≡ ok a)
passed true r e a h = absurd (cc h)
passed false r e a h = (refl, h)

abbrev decoded : Frame → Result FrameError Frame
decoded f = ok f

ok_parts : (f g : Frame) → decoded f ≡ decoded g → f ≡ g
ok_parts f g e = cc e

checks :
    (pkt : Bytes) (plen : ℕ)
    → (ltb (length pkt) (frame_header_len + frame_mac_len)
        || ltb max_frame_len (length pkt)
        || not (byte_at 0 pkt == frame_magic))
      ≡ false
    → not (frame_header_len + plen + frame_mac_len == length pkt) ≡ false
    → (length pkt ≤ max_frame_len)
      × (byte_at 0 pkt ≡ frame_magic)
      × (frame_header_len + plen + frame_mac_len ≡ length pkt)
checks pkt plen h k = ground arith

pub decode_inv :
    (pkt : Bytes) (f : Frame) → decode_frame pkt ≡ ok f → IsWellFormed pkt × (f ≡ parts pkt)
unfolding decode_frame
decode_inv pkt f e =
    let first = passed _ _ bad_frame f e in
    let second = passed _ _ bad_frame f first.1 in
    (checks pkt _ first.0 second.0, sym (ok_parts _ _ second.1))
