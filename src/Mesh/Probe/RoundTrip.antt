-- ===== src/Mesh/Probe/RoundTrip.antt =====
-- Probe frames: what is encoded decodes, and what decodes and verifies was encoded under the key.
use zattera_dev.Base.{
  ℕ, ◌+◌, ◌-◌, ◌%◌, ◌^◌, ◌≤◌, ◌<◌, ◌≡◌, refl, sym, ap, ◌∙◌, arith, true, [], ◌∷◌, ◌++◌, some,
  length, take, drop, slice, length-append, take_front, drop_front, All, subst, take-append_drop,
  length-take, take_add, drop_add, take-All, drop-All, length-drop, ◌≢◌,
}
use zattera_dev.Wire.{Bytes, IsBytes, ok, be, of_be}
use zattera_dev.Wire.Words.{of_be-be, be-of_be, of_be_bound, bytes_eq_refl, bytes_eq→eq}
use zattera_dev.Mesh.Probe.{
  frame_magic, frame_header_len, frame_mac_len, max_frame_len, Frame, byte_at, unsigned_frame,
  decode_frame, encode_frame, verify_frame, pong_payload, split_pong, separator,
}
use zattera_dev.Mesh.Probe.Decoding.{
  max_probe_payload, length-unsigned, magic_at, type_at, tx_at, length_at, payload_at, parts,
  IsWellFormed, decode_ok, decode_inv,
}

module _ (hmac : Bytes → Bytes → Bytes)
    (hmac_len : (key message : Bytes) → length (hmac key message) ≡ frame_mac_len) where
  length-encode :
      (typ tx_id : ℕ) (payload key : Bytes)
      → length (encode_frame hmac typ tx_id payload key) ≡ 44 + length payload
  unfolding encode_frame
  length-encode typ tx_id payload key =
      let buf = unsigned_frame typ tx_id payload in
      omega (
        arith,
        length-append buf (hmac key buf),
        hmac_len key buf,
        length-unsigned typ tx_id payload,
      )

  encode-IsWellFormed :
      (typ tx_id : ℕ) (payload key : Bytes)
      → length payload ≤ max_probe_payload
      → IsWellFormed (encode_frame hmac typ tx_id payload key)
  unfolding encode_frame
  encode-IsWellFormed typ tx_id payload key h =
      let buf = unsigned_frame typ tx_id payload in
      let total = length-encode typ tx_id payload key in
      let small : length payload % 2 ^ 16 ≡ length payload = omega arith in
      let plen : of_be (slice 10 12 (buf ++ hmac key buf)) ≡ length payload =
        ap of_be (length_at typ tx_id payload (hmac key buf))
        ∙ ap (λ n. of_be (be 2 n)) small
        ∙ of_be-be 2 (length payload) (omega arith) in
      (omega (arith, total), magic_at typ tx_id payload (hmac key buf), omega (arith, total, plen))

  -- What a receiver finds in a frame that encodeFrame rendered.
  abbrev pub sent : ℕ → ℕ → Bytes → Bytes → Frame
  sent typ tx_id payload key = record {
    typ = typ;
    tx_id = tx_id;
    payload = payload;
    signed = unsigned_frame typ tx_id payload;
    mac = hmac key (unsigned_frame typ tx_id payload);
  }

  -- The cut between the signed region and the code.
  cut :
      (typ tx_id : ℕ) (payload key : Bytes)
      → length (encode_frame hmac typ tx_id payload key) - frame_mac_len
        ≡ length (unsigned_frame typ tx_id payload)
  cut typ tx_id payload key =
      omega (arith, length-encode typ tx_id payload key, length-unsigned typ tx_id payload)

  parts-encode :
      (typ tx_id : ℕ) (payload key : Bytes)
      → tx_id < 2 ^ 64
      → length payload ≤ max_probe_payload
      → parts (encode_frame hmac typ tx_id payload key) ≡ sent typ tx_id payload key
  parts-encode typ tx_id payload key ht h =
      let buf = unsigned_frame typ tx_id payload in
      let code = hmac key buf in
      let pkt = encode_frame hmac typ tx_id payload key in
      let whole : pkt ≡ buf ++ code = unfold encode_frame in refl in
      let ends = cut typ tx_id payload key in
      let wf = encode-IsWellFormed typ tx_id payload key h in
      let total = length-encode typ tx_id payload key in
      let sizes : frame_header_len + of_be (slice 10 12 pkt) - 12 ≡ length payload =
        omega (arith, wf.2, total) in
      let e_typ : byte_at 1 pkt ≡ typ = ap (byte_at 1) whole ∙ type_at typ tx_id payload code in
      let e_tx : of_be (slice 2 10 pkt) ≡ tx_id =
        ap (λ p. of_be (slice 2 10 p)) whole
        ∙ ap of_be (tx_at typ tx_id payload code)
        ∙ of_be-be 8 tx_id (omega arith) in
      let e_payload : slice 12 (12 + of_be (slice 10 12 pkt)) pkt ≡ payload =
        ap (λ n. take n (drop 12 pkt)) sizes
        ∙ ap (λ p. take (length payload) (drop 12 p)) whole
        ∙ ap (λ p. take (length payload) p) (payload_at typ tx_id payload code)
        ∙ take_front payload code in
      let e_signed : take (length pkt - frame_mac_len) pkt ≡ buf =
        ap (λ n. take n pkt) ends ∙ ap (λ p. take (length buf) p) whole ∙ take_front buf code in
      let e_mac : drop (length pkt - frame_mac_len) pkt ≡ code =
        ap (λ n. drop n pkt) ends ∙ ap (λ p. drop (length buf) p) whole ∙ drop_front buf code in
      cc (e_typ, e_tx, e_payload, e_signed, e_mac)

  -- Where the HMAC has 32 bytes: a probe frame with a 64-bit transaction id and a payload of at most 468
  -- bytes is at most 512 bytes long, decodes to its type, its transaction id and its payload, and passes
  -- the verification under the key that signed it.
  pub decode_frame-encode_frame :
      (typ tx_id : ℕ) (payload key : Bytes)
      → tx_id < 2 ^ 64
      → length payload ≤ max_probe_payload
      → (length (encode_frame hmac typ tx_id payload key) ≤ max_frame_len)
        × (decode_frame (encode_frame hmac typ tx_id payload key) ≡ ok (sent typ tx_id payload key))
        × (verify_frame hmac
              (sent typ tx_id payload key).signed
              (sent typ tx_id payload key).mac
              key
            ≡ true)
  decode_frame-encode_frame typ tx_id payload key ht h =
      let wf = encode-IsWellFormed typ tx_id payload key h in
      (
        wf.0,
        decode_ok _ wf ∙ ap ok (parts-encode typ tx_id payload key ht h),
        unfold verify_frame in bytes_eq_refl (hmac key (unsigned_frame typ tx_id payload)),
      )

first_two : (pkt : Bytes) → 2 ≤ length pkt → take 2 pkt ≡ byte_at 0 pkt ∷ byte_at 1 pkt ∷ []
unfolding byte_at
first_two [] h = absurd (omega arith)
first_two (a ∷ []) h = absurd (omega arith)
first_two (a ∷ b ∷ pkt) h = refl

-- A word read from a slice is written back as that slice.
word_back :
    (a w : ℕ) (pkt : Bytes)
    → IsBytes pkt
    → a + w ≤ length pkt
    → be w (of_be (take w (drop a pkt))) ≡ take w (drop a pkt)
word_back a w pkt hb h =
    let xs = take w (drop a pkt) in
    let len : length xs ≡ w = length-take w (drop a pkt) (omega (arith, length-drop a pkt)) in
    ap (λ n. be n (of_be xs)) (sym len)
    ∙ be-of_be xs (take-All _ w (drop a pkt) (drop-All _ a pkt hb))

-- The signed region of a packet, cut at its fields.
fields :
    (n : ℕ) (pkt : Bytes)
    → take (12 + n) pkt
      ≡ take 2 pkt ++ (take 8 (drop 2 pkt) ++ (take 2 (drop 10 pkt) ++ take n (drop 12 pkt)))
fields n pkt =
    let e : 12 + n ≡ 2 + (8 + (2 + n)) = omega arith in
    ap (λ k. take k pkt) e
    ∙ take_add 2 (8 + (2 + n)) pkt
    ∙ ap (λ t. take 2 pkt ++ t) (take_add 8 (2 + n) (drop 2 pkt))
    ∙ ap (λ d. take 2 pkt ++ (take 8 (drop 2 pkt) ++ take (2 + n) d)) (sym (drop_add 2 8 pkt))
    ∙ ap (λ t. take 2 pkt ++ (take 8 (drop 2 pkt) ++ t)) (take_add 2 n (drop 10 pkt))
    ∙ ap (λ d. take 2 pkt ++ (take 8 (drop 2 pkt) ++ (take 2 (drop 10 pkt) ++ take n d)))
        (sym (drop_add 10 2 pkt))

-- The signed region is what encodeFrame renders from the parts read off it.
signed_back :
    (n : ℕ) (pkt : Bytes)
    → IsBytes pkt
    → byte_at 0 pkt ≡ frame_magic
    → of_be (slice 10 12 pkt) ≡ n
    → n < 2 ^ 16
    → 12 + n ≤ length pkt
    → unsigned_frame (byte_at 1 pkt) (of_be (slice 2 10 pkt)) (take n (drop 12 pkt))
      ≡ take (12 + n) pkt
unfolding unsigned_frame
signed_back n pkt hb magic plen fits h =
    let len : length (take n (drop 12 pkt)) % 2 ^ 16 ≡ of_be (slice 10 12 pkt) =
      omega (arith, plen, length-take n (drop 12 pkt) (omega (arith, length-drop 12 pkt))) in
    let e1 : take 2 pkt ≡ frame_magic ∷ byte_at 1 pkt ∷ [] =
      first_two pkt (omega arith) ∙ ap (λ m. m ∷ byte_at 1 pkt ∷ []) magic in
    let e2 = word_back 2 8 pkt hb (omega arith) in
    let e3 = word_back 10 2 pkt hb (omega arith) in
    let e4 : be 2 (length (take n (drop 12 pkt)) % 2 ^ 16) ≡ take 2 (drop 10 pkt) =
      ap (be 2) len ∙ e3 in
    sym (fields n pkt ∙ cc (e1, e2, e4))

authentic_parts :
    (hmac : Bytes → Bytes → Bytes) (pkt key : Bytes)
    → IsBytes pkt
    → IsWellFormed pkt
    → verify_frame hmac (parts pkt).signed (parts pkt).mac key ≡ true
    → (pkt ≡ encode_frame hmac (parts pkt).typ (parts pkt).tx_id (parts pkt).payload key)
      × (length (parts pkt).payload ≤ max_probe_payload)
      × ((parts pkt).tx_id < 2 ^ 64)
unfolding verify_frame encode_frame
authentic_parts hmac pkt key hb (short, magic, plen) v =
    let n = of_be (slice 10 12 pkt) in
    let k = length pkt - frame_mac_len in
    let size : frame_header_len + n - 12 ≡ n = omega arith in
    let room : n ≤ length (drop 12 pkt) = omega (arith, length-drop 12 pkt) in
    let cut_at : 12 + n ≡ k = omega arith in
    let buf = unsigned_frame (byte_at 1 pkt) (of_be (slice 2 10 pkt)) (parts pkt).payload in
    let signed : buf ≡ take k pkt =
      ap (λ m. unsigned_frame (byte_at 1 pkt) (of_be (slice 2 10 pkt)) (take m (drop 12 pkt))) size
      ∙ signed_back n pkt hb magic refl (omega arith) (omega arith)
      ∙ ap (λ m. take m pkt) cut_at in
    let code : drop k pkt ≡ hmac key (take k pkt) = bytes_eq→eq _ _ v in
    let tx = of_be_bound (take 8 (drop 2 pkt)) (take-All _ 8 (drop 2 pkt) (drop-All _ 2 pkt hb)) in
    let tx_len = length-take 8 (drop 2 pkt) (omega (arith, length-drop 2 pkt)) in
    (
      sym (take-append_drop k pkt) ∙ cc (signed, code),
      omega (arith, ap (λ m. length (take m (drop 12 pkt))) size, length-take n (drop 12 pkt) room),
      omega (arith, tx, ap (λ m. 256 ^ m) tx_len),
    )

-- A packet of bytes that decodes, and whose code verifies under a key, is what encodeFrame renders for
-- its type, its transaction id and its payload under that key; its payload has at most 468 bytes and its
-- transaction id fits 64 bits.
pub decode_frame-Authentic :
    (hmac : Bytes → Bytes → Bytes) (pkt key : Bytes) (f : Frame)
    → IsBytes pkt
    → decode_frame pkt ≡ ok f
    → verify_frame hmac f.signed f.mac key ≡ true
    → (pkt ≡ encode_frame hmac f.typ f.tx_id f.payload key)
      × (length f.payload ≤ max_probe_payload)
      × (f.tx_id < 2 ^ 64)
decode_frame-Authentic hmac pkt key f hb d v =
    let (wf, e) = decode_inv pkt f d in
    subst
      (λ g.
        (pkt ≡ encode_frame hmac g.typ g.tx_id g.payload key)
        × (length g.payload ≤ max_probe_payload)
        × (g.tx_id < 2 ^ 64))
      (sym e)
      (authentic_parts hmac pkt key hb wf
        (subst (λ g. verify_frame hmac g.signed g.mac key ≡ true) e v))

-- A pong's payload splits into the sender's id and the observed address, where the id has no `|`.
pub split_pong-pong_payload :
    (ponder_id observed : Bytes)
    → All (λ c. c ≢ separator) ponder_id
    → split_pong (pong_payload ponder_id observed) ≡ some (ponder_id, observed)
unfolding split_pong pong_payload
split_pong-pong_payload [] observed h = ground arith
split_pong-pong_payload (c ∷ s) observed h =
    ground (arith, h.0, split_pong-pong_payload s observed h.1)
