-- ===== src/Mesh/Relay/RoundTrip.antt =====
-- What is written to a relay connection is what is read from it.
use zattera_dev.Base.{
  ℕ, zero, suc, ◌+◌, ◌%◌, ◌^◌, ◌≤◌, ◌<◌, ◌≡◌, refl, sym, ap, ◌∙◌, arith, List, [], ◌∷◌, ◌++◌, some,
  length, take, drop, length-append, take_front, drop_front, All, subst,
}
use zattera_dev.Wire.{Bytes, ok, read_full, be, of_be}
use zattera_dev.Wire.Words.{length-be, of_be-be, read_full-append}
use zattera_dev.Mesh.Relay.{
  node_id_len, max_payload, short_read, write_frame, read_frame, read_loop, read_all, write_all,
}
use mathlib.Core.List.{append_assoc}

-- A node id and a payload that writeFrame takes.
abbrev pub IsSendable : Bytes → Bytes → Type 0
IsSendable node_id payload = (length node_id ≡ node_id_len) × (length payload ≤ max_payload)

abbrev header : Bytes → Bytes → Bytes
header node_id payload = node_id ++ be 2 (length payload)

write_ok :
    (node_id payload : Bytes)
    → IsSendable node_id payload
    → write_frame node_id payload ≡ ok (header node_id payload ++ payload)
unfolding write_frame
write_ok node_id payload h =
    let e : length payload % 2 ^ 16 ≡ length payload = omega arith in
    ground (arith, ap (be 2) e, append_assoc node_id (be 2 (length payload)) payload)

length-header :
    (node_id payload : Bytes) → IsSendable node_id payload → length (header node_id payload) ≡ 28
length-header node_id payload h =
    omega (arith, length-append node_id (be 2 (length payload)), length-be 2 (length payload))

read_header :
    (node_id payload back : Bytes)
    → IsSendable node_id payload
    → read_full (node_id_len + 2) (header node_id payload ++ back)
      ≡ some (header node_id payload, back)
read_header node_id payload back h =
    ap (λ n. read_full n (header node_id payload ++ back)) (sym (length-header node_id payload h))
    ∙ read_full-append (header node_id payload) back

of_be-header :
    (node_id payload : Bytes)
    → IsSendable node_id payload
    → of_be (drop node_id_len (header node_id payload)) ≡ length payload
of_be-header node_id payload h =
    ap (λ n. of_be (drop n (header node_id payload))) (sym h.0)
    ∙ ap of_be (drop_front node_id (be 2 (length payload)))
    ∙ of_be-be 2 (length payload) (omega arith)

header_node :
    (node_id payload : Bytes)
    → IsSendable node_id payload
    → take node_id_len (header node_id payload) ≡ node_id
header_node node_id payload h =
    ap (λ n. take n (header node_id payload)) (sym h.0) ∙ take_front node_id (be 2 (length payload))

-- readFrame, where both of its reads return and the length is under the cap.
read_frame_ok :
    (n : ℕ) (conn hdr body payload rest : Bytes)
    → read_full (node_id_len + 2) conn ≡ some (hdr, body)
    → of_be (drop node_id_len hdr) ≡ n
    → n ≤ max_payload
    → read_full n body ≡ some (payload, rest)
    → read_frame conn ≡ ok ((take node_id_len hdr, payload), rest)
unfolding read_frame
read_frame_ok n conn hdr body payload rest e l h e' = ground (arith, ap (λ k. read_full k body) l)

read_written :
    (node_id payload rest : Bytes)
    → IsSendable node_id payload
    → read_frame ((header node_id payload ++ payload) ++ rest) ≡ ok ((node_id, payload), rest)
read_written node_id payload rest h =
    ap read_frame (append_assoc (header node_id payload) payload rest)
    ∙ read_frame_ok (length payload) _ (header node_id payload) (payload ++ rest) payload rest
        (read_header node_id payload (payload ++ rest) h) (of_be-header node_id payload h) h.1
        (read_full-append payload rest)
    ∙ ap (λ i. ok ((i, payload), rest)) (header_node node_id payload h)

abbrev IsFrames : List (Bytes × Bytes) → Type 0
IsFrames = All (λ f. IsSendable f.0 f.1)

frame_bytes : List (Bytes × Bytes) → Bytes
frame_bytes [] = []
frame_bytes ((node_id, payload) ∷ frames) =
    (header node_id payload ++ payload) ++ frame_bytes frames

write_all_ok :
    (frames : List (Bytes × Bytes)) → IsFrames frames → write_all frames ≡ ok (frame_bytes frames)
unfolding write_all frame_bytes
write_all_ok [] h = refl
write_all_ok ((node_id, payload) ∷ frames) h =
    ground (arith, write_ok node_id payload h.0, write_all_ok frames h.1)

read_loop_step :
    (fuel : ℕ) (conn : Bytes) (frame : Bytes × Bytes) (rest : Bytes)
    → read_frame conn ≡ ok (frame, rest)
    → read_loop (suc fuel) conn ≡ (frame ∷ (read_loop fuel rest).0, (read_loop fuel rest).1)
unfolding read_loop read_frame read_full
read_loop_step fuel conn frame rest e = rw e refl

-- An empty connection ends the loop.
read_loop_end : (fuel : ℕ) → read_loop (suc fuel) [] ≡ ([], some short_read)
unfolding read_loop read_frame read_full
read_loop_end fuel = refl

read_loop-frames :
    (frames : List (Bytes × Bytes)) (fuel : ℕ)
    → IsFrames frames
    → length frames < fuel
    → read_loop fuel (frame_bytes frames) ≡ (frames, some short_read)
unfolding frame_bytes
read_loop-frames frames zero h hf = absurd (omega arith)
read_loop-frames [] (suc fuel) h hf = read_loop_end fuel
read_loop-frames ((node_id, payload) ∷ frames) (suc fuel) h hf =
    let step = read_written node_id payload (frame_bytes frames) h.0 in
    let rest = read_loop-frames frames fuel h.1 (omega arith) in
    read_loop_step fuel _ (node_id, payload) _ step ∙ ap (λ r. ((node_id, payload) ∷ r.0, r.1)) rest

frames_shorter : (frames : List (Bytes × Bytes)) → length frames ≤ length (frame_bytes frames)
unfolding frame_bytes
frames_shorter [] = omega arith
frames_shorter ((node_id, payload) ∷ frames) = omega (
  arith,
  length-append (header node_id payload ++ payload) (frame_bytes frames),
  length-append (header node_id payload) payload,
  length-append node_id (be 2 (length payload)),
  length-be 2 (length payload),
  frames_shorter frames,
)

-- Frames with node ids of 26 bytes and payloads of at most 2048 bytes, written to a connection one after
-- the other, are read from it in the same order, each with its node id and its whole payload, and the
-- reader then ends at the end of the connection.
pub read_all-write_all :
    (frames : List (Bytes × Bytes)) (conn : Bytes)
    → IsFrames frames
    → write_all frames ≡ ok conn
    → read_all conn ≡ (frames, some short_read)
unfolding read_all
read_all-write_all frames conn h e =
    let same : conn ≡ frame_bytes frames = cc (e, write_all_ok frames h) in
    subst (λ c. read_loop (suc (length c)) c ≡ (frames, some short_read)) (sym same)
      (read_loop-frames frames _ h (omega (arith, frames_shorter frames)))
