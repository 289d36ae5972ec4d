-- ===== src/Client/Transfer.antt =====
-- client_core/src/ClientCore.cpp: the transfers of files.
use improject.Base.{
  ℕ, zero, suc, ℤ, pos, ◌+◌, ◌-◌, ◌*◌, ◌/◌, ◌%◌, ◌^◌, List, [], ◌∷◌, ◌++◌, map, Bool, true, false,
  not, ◌&&◌, ◌||◌, Option, none, some, Bytes, ◌==◌, ltb, leb, if◌then◌else◌, is_empty, length, take,
  drop, is_pos, int_eq, codes, replicate,
}
use improject.Text.{to_string, find_text}
use improject.Files.{Headers, bearer, file_max_size}
use improject.Media.{filename}
use improject.Client.{Client}

abbrev pub cut_at : Option ℕ → Bytes → Bytes
cut_at none text = []
cut_at (some end) text = take end text

-- substr(pos, end - pos) up to the next quote; `none` where there is none.
abbrev pub up_to_quote : Bytes → Bytes
up_to_quote text = cut_at (find_text (34 ∷ []) text) text

unfoldable pub extract_json_string_field : Bytes → Bytes → Bytes
extract_json_string_field json key =
    let needle = 34 ∷ key ++ codes "\":\"" in
    elim (find_text needle json) [
      | none ↦ []
      | some at ↦ up_to_quote (drop (at + length needle) json)
    ]

-- Whether the transfers have what they need: the server's name, its port and a token.
abbrev pub can_transfer : Bytes → ℕ → Client → Bool
can_transfer server_name port c =
    not (is_empty server_name) && not (port == 0) && not (is_empty c.access_token)

-- The headers of an upload, by their names.
unfoldable pub upload_headers : List (Bytes × Bytes) → Headers
upload_headers [] name = []
upload_headers ((n, value) ∷ rest) name =
    let other = upload_headers rest name in if improject.Base.bytes_eq n name then value else other

abbrev pub headers_of_upload : Bytes → ℤ → Client → List (Bytes × Bytes)
headers_of_upload path receiver c =
    (codes "Authorization", bearer ++ c.access_token)
    ∷ (codes "X-Device-Id", c.device_id)
    ∷ (codes "X-File-Name", filename path)
    ∷ (codes "X-Receiver-Id", to_string receiver)
    ∷ []

-- uploadMedia, for a file of a size (`none`: it does not open) and the answer to the request.
unfoldable pub upload_media : Bytes → ℕ → Option ℕ → Option (ℕ × Bytes) → Client → Bytes
unfolding extract_json_string_field
upload_media server_name port none answer c = []
upload_media server_name port (some size) none c = []
upload_media server_name port (some size) (some (status, body)) c =
    if not (can_transfer server_name port c) || size == 0 || ltb file_max_size size
    then []
    else if not (status == 200)
    then []
    else extract_json_string_field body (codes "file_id")

-- downloadMedia, for a file that opens or not.
unfoldable pub download_media : Bytes → ℕ → Bool → Option ℕ → Client → Bool
download_media server_name port opens none c = false
download_media server_name port opens (some status) c =
    can_transfer server_name port c && opens && (status == 200 || status == 206)
