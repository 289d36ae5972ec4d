-- ===== src/Wire.antt =====
-- The wire format: im_server/src/Session.h (codecs), Session.cpp (framing), the client's
-- client_core/src/TcpTransport.cpp, and client_core/include/client_core/Protocol.h.
pub mod Frames
pub mod Utf8
use improject.Base.{
  ℕ, zero, suc, ◌+◌, ◌*◌, ◌/◌, ◌%◌, ◌^◌, List, [], ◌∷◌, ◌++◌, Bool, true, false, ◌&&◌, ◌||◌, Option,
  none, some, Bytes, ◌==◌, ltb, leb, if◌then◌else◌, length, take, drop, get_elem?,
}

-- encodeLen32: big end first.
unfoldable pub encode_len32 : ℕ → Bytes
encode_len32 v = (v / 2 ^ 24 % 256) ∷ (v / 2 ^ 16 % 256) ∷ (v / 2 ^ 8 % 256) ∷ (v % 256) ∷ []

-- decodeLen32; the source reads four bytes.
unfoldable pub decode_len32 : Bytes → ℕ
decode_len32 (a ∷ b ∷ c ∷ d ∷ rest) = a * 2 ^ 24 + b * 2 ^ 16 + c * 2 ^ 8 + d
decode_len32 _ = 0

-- encodeType32: little end first.
unfoldable pub encode_type32 : ℕ → Bytes
encode_type32 v = (v % 256) ∷ (v / 2 ^ 8 % 256) ∷ (v / 2 ^ 16 % 256) ∷ (v / 2 ^ 24 % 256) ∷ []

unfoldable pub decode_type32 : Bytes → ℕ
decode_type32 (a ∷ b ∷ c ∷ d ∷ rest) = a + b * 2 ^ 8 + c * 2 ^ 16 + d * 2 ^ 24
decode_type32 _ = 0

abbrev pub max_pack_len : ℕ
max_pack_len = 10 * 1024 * 1024

-- The buffer of enqueueRawFrame: the length of type and payload, the type, the payload.
unfoldable pub raw_frame : ℕ → Bytes → Bytes
raw_frame type payload =
    encode_len32 ((4 + length payload) % 2 ^ 32) ++ (encode_type32 (type % 2 ^ 32) ++ payload)

-- What a read of the stream gives: a frame and the rest, the need for more bytes, or a length that
-- closes the connection.
pub data Read : Type 0 where
  frame : ℕ → Bytes → Bytes → Read
  more : Read
  bad_length : Read

-- doReadBody, once its bytes are there.
unfoldable pub read_body : ℕ → Bytes → Read
read_body body_len bytes =
    if ltb (length bytes) body_len
    then more
    else frame (decode_type32 (take body_len bytes)) (drop 4 (take body_len bytes))
        (drop body_len bytes)

-- doReadHeader: the length must hold a type and stay within the limit.
unfoldable pub read_frame : Bytes → Read
unfolding read_body
read_frame bytes =
    if ltb (length bytes) 4
    then more
    else let body_len = decode_len32 bytes in
      if ltb body_len 4 || ltb max_pack_len body_len
      then bad_length
      else read_body body_len (drop 4 bytes)

-- doReadHeader and doReadBody in turn, until the stream ends or is refused.
pub read_frames : ℕ → Bytes → List (ℕ × Bytes)
read_frames zero bytes = []
read_frames (suc fuel) bytes = elim (read_frame bytes) [
  | frame type payload rest ↦ (type, payload) ∷ read_frames fuel rest
  | more ↦ []
  | bad_length ↦ []
]

-- TcpTransport::send: the buffer, or `none` where the call returns at once. `is_open` is m_open.
unfoldable pub client_send : Bool → Bytes → Option Bytes
client_send is_open data_bytes =
    if is_open && ltb 0 (length data_bytes) && leb (length data_bytes) max_pack_len
    then some (encode_len32 (length data_bytes % 2 ^ 32) ++ data_bytes)
    else none

-- TcpTransport::doReadHeader and doReadBody hand the whole body on.
pub data ClientRead : Type 0 where
  packet : Bytes → Bytes → ClientRead
  more : ClientRead
  bad_length : ClientRead

unfoldable pub client_read : Bytes → ClientRead
client_read bytes =
    if ltb (length bytes) 4
    then ClientRead.more
    else let body_len = decode_len32 bytes in
      if body_len == 0 || ltb max_pack_len body_len
      then ClientRead.bad_length
      else if ltb (length (drop 4 bytes)) body_len
      then ClientRead.more
      else packet (take body_len (drop 4 bytes)) (drop body_len (drop 4 bytes))

-- (s[n] & 0xC0) == 0x80
abbrev pub is_continuation : Option ℕ → Bool
is_continuation none = false
is_continuation (some b) = leb 128 b && ltb b 192

-- The loop of utf8Truncate: back from `n` to the start of a character.
pub boundary : Bytes → ℕ → ℕ
boundary s zero = 0
boundary s (suc n) =
    let back = boundary s n in if is_continuation (get_elem? s (suc n)) then back else suc n

unfoldable pub utf8_truncate : Bytes → ℕ → Bytes
utf8_truncate s max_bytes = if leb (length s) max_bytes then s else take (boundary s max_bytes) s
