-- ===== src/Wire/Frames.antt =====
-- About the framing of Session.cpp and TcpTransport.cpp: writing and reading together.
use improject.Base.{
  ℕ, suc, ◌+◌, ◌%◌, ◌^◌, ◌≤◌, ◌<◌, List, [], ◌∷◌, ◌++◌, true, ◌≡◌, refl, ap, ◌∙◌, some, Bytes,
  arith, length, length-append, take-append, drop-append, append_assoc, All,
}
use improject.Wire.{
  encode_len32, decode_len32, encode_type32, decode_type32, max_pack_len, raw_frame, frame,
  read_body, read_frame, read_frames, client_send, packet, client_read,
}

pub decode_len32-encode_len32 :
    (v : ℕ) (rest : Bytes) → v < 2 ^ 32 → decode_len32 (encode_len32 v ++ rest) ≡ v
unfolding decode_len32 encode_len32
decode_len32-encode_len32 v rest h = omega arith

pub decode_type32-encode_type32 :
    (v : ℕ) (rest : Bytes) → v < 2 ^ 32 → decode_type32 (encode_type32 v ++ rest) ≡ v
unfolding decode_type32 encode_type32
decode_type32-encode_type32 v rest h = omega arith

-- The four bytes of the type, and the payload behind them.
read_body_lem :
    (type n : ℕ) (payload rest : Bytes)
    → type < 2 ^ 32
    → n ≡ suc (suc (suc (suc (length payload))))
    → read_body n (encode_type32 type ++ (payload ++ rest)) ≡ frame type payload rest
unfolding read_body encode_type32 decode_type32
read_body_lem type n payload rest h e =
    rw e (
      ground
        (arith, take-append payload rest, drop-append payload rest, length-append payload rest))

read_frame_lem :
    (n : ℕ) (bytes : Bytes)
    → 4 ≤ n
    → n ≤ max_pack_len
    → read_frame (encode_len32 n ++ bytes) ≡ read_body n bytes
unfolding read_frame
read_frame_lem n bytes low high =
    rw (decode_len32-encode_len32 n bytes (omega arith)) (unfold encode_len32 in ground arith)

-- A frame that the server or its peer writes, whose type fits 32 bits and whose body fits the
-- limit, is read back as its type and payload, and what follows it stays.
pub read_frame-raw_frame :
    (type : ℕ) (payload rest : Bytes)
    → type < 2 ^ 32
    → 4 + length payload ≤ max_pack_len
    → read_frame (raw_frame type payload ++ rest) ≡ frame type payload rest
unfolding raw_frame
read_frame-raw_frame type payload rest h fits =
    let whole : (4 + length payload) % 2 ^ 32 ≡ 4 + length payload = omega arith in
    let whole' : type % 2 ^ 32 ≡ type = omega arith in
    rw
      (
        whole,
        whole',
        append_assoc (encode_len32 _) _ rest,
        append_assoc (encode_type32 type) payload rest,
      )
      (read_frame_lem (4 + length payload) _ (omega arith) fits
        ∙ read_body_lem type (4 + length payload) payload rest h (omega arith))

-- The bytes of frames that are written one behind the other.
pub raw_frames : List (ℕ × Bytes) → Bytes
raw_frames [] = []
raw_frames ((type, payload) ∷ frames) = raw_frame type payload ++ raw_frames frames

abbrev pub Fits : ℕ × Bytes → Type 0
Fits f = (f.0 < 2 ^ 32) × (4 + length f.1 ≤ max_pack_len)

-- A stream of frames that fit is read back as those frames, in order.
pub read_frames-raw_frames :
    (frames : List (ℕ × Bytes))
    → All Fits frames
    → read_frames (length frames) (raw_frames frames) ≡ frames
unfolding read_frames raw_frames
read_frames-raw_frames [] h = refl
read_frames-raw_frames ((type, payload) ∷ frames) h =
    rw (read_frame-raw_frame type payload (raw_frames frames) h.0.0 h.0.1, read_frames)
      (ap (◌∷◌ (type, payload)) (read_frames-raw_frames frames h.1))

client_send_sent :
    (bytes sent : Bytes)
    → client_send true bytes ≡ some sent
    → (0 < length bytes)
      × (length bytes ≤ max_pack_len)
      × (sent ≡ encode_len32 (length bytes % 2 ^ 32) ++ bytes)
unfolding client_send
client_send_sent bytes sent h = (ground arith, ground arith, ground arith)

client_read_lem :
    (n : ℕ) (bytes rest : Bytes)
    → n ≡ length bytes
    → 0 < n
    → n ≤ max_pack_len
    → client_read (encode_len32 n ++ (bytes ++ rest)) ≡ packet bytes rest
unfolding client_read
client_read_lem n bytes rest e low high =
    rw (decode_len32-encode_len32 n (bytes ++ rest) (omega arith)) (
      unfold encode_len32 in
      rw e
        (ground (arith, take-append bytes rest, drop-append bytes rest, length-append bytes rest)))

-- What an open client sends is read back whole, and what follows it stays.
pub client_read-client_send :
    (bytes rest sent : Bytes)
    → client_send true bytes ≡ some sent
    → client_read (sent ++ rest) ≡ packet bytes rest
client_read-client_send bytes rest sent h =
    let s = client_send_sent bytes sent h in
    let fits : length bytes ≤ max_pack_len = s.1 in
    let whole : length bytes % 2 ^ 32 ≡ length bytes = omega arith in
    rw (s.2, whole, append_assoc (encode_len32 _) bytes rest)
      (client_read_lem (length bytes) bytes rest refl s.0 s.1)
