-- ===== src/Media.antt =====
-- im_server/src/MediaUtil.h, protocol/image_format.h, and the names of files in HttpFileServer.cpp.
use improject.Base.{
  ℕ, [], ◌∷◌, Bool, true, false, not, ◌&&◌, ◌||◌, none, some, Bytes, ◌==◌, within, if◌then◌else◌,
  is_empty, drop, bytes_eq, all_of, any_of, codes,
}
use improject.Text.{starts_with, find_text}

abbrev pub is_alnum : ℕ → Bool
is_alnum c = within 48 57 c || within 65 90 c || within 97 122 c

-- MediaUtil.h
unfoldable pub is_safe_file_id : Bytes → Bool
is_safe_file_id id =
    not (is_empty id)
    && all_of (λ c. is_alnum c || c == 46 || c == 95 || c == 45) id
    && (elim (find_text (46 ∷ 46 ∷ []) id) [ none ↦ true | some at ↦ false ])

-- image_format.h; a byte that is not there is no byte of a mark.
unfoldable pub image_ext_for_bytes : Bytes → Bytes
image_ext_for_bytes bytes =
    if starts_with (0x89 ∷ 0x50 ∷ 0x4E ∷ 0x47 ∷ 0x0D ∷ 0x0A ∷ 0x1A ∷ 0x0A ∷ []) bytes
    then codes ".png"
    else if starts_with (0xFF ∷ 0xD8 ∷ 0xFF ∷ []) bytes
    then codes ".jpg"
    else if starts_with (0x47 ∷ 0x49 ∷ 0x46 ∷ 0x38 ∷ []) bytes
    then codes ".gif"
    else if starts_with (0x42 ∷ 0x4D ∷ []) bytes
    then codes ".bmp"
    else if starts_with (0x52 ∷ 0x49 ∷ 0x46 ∷ 0x46 ∷ []) bytes
        && starts_with (0x57 ∷ 0x45 ∷ 0x42 ∷ 0x50 ∷ []) (drop 8 bytes)
    then codes ".webp"
    else codes ".bin"

-- What stands behind the last byte `c`, all of the text if there is none.
unfoldable pub behind_last : ℕ → Bytes → Bytes
behind_last c [] = []
behind_last c (x ∷ xs) =
    let rest = behind_last c xs in
    if any_of (λ y. y == c) xs then rest else if x == c then xs else x ∷ xs

-- std::filesystem::path::filename
abbrev pub filename : Bytes → Bytes
filename path = behind_last 47 path

-- std::filesystem::path::extension of a path: the last dot of the name and what follows, unless the
-- dot begins the name or the name is "..".
abbrev pub name_extension : Bytes → Bytes
name_extension [] = []
name_extension (first ∷ rest) =
    if bytes_eq (first ∷ rest) (codes "..") || not (any_of (λ c. c == 46) rest)
    then []
    else 46 ∷ behind_last 46 rest

unfoldable pub extension : Bytes → Bytes
unfolding behind_last
extension path = name_extension (filename path)

unfoldable pub guess_content_type : Bytes → Bytes
unfolding extension
guess_content_type path =
    let ext = extension path in
    if bytes_eq ext (codes ".png")
    then codes "image/png"
    else if bytes_eq ext (codes ".jpg") || bytes_eq ext (codes ".jpeg")
    then codes "image/jpeg"
    else if bytes_eq ext (codes ".gif")
    then codes "image/gif"
    else if bytes_eq ext (codes ".bmp")
    then codes "image/bmp"
    else if bytes_eq ext (codes ".webp")
    then codes "image/webp"
    else codes "application/octet-stream"
