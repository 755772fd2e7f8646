-- ===== src/Decompress.antt =====
-- ag_src/decompress.c as built with zlib and liblzma: the test for compressed files. `Whole` has the
-- decoders of a whole buffer, `Zfile` the stream of ag_src/zfile.c.
pub mod Whole
pub mod Zfile
use libag.Common.{
  ℕ, Bool, true, false, ◌&&◌, Option, none, some, List, [], ◌∷◌, length, take, get_or, ltb, leb,
  ◌==◌, if◌then◌else◌,
}

-- `ag_compression_type`
pub data CompressionType : Type 0 where
  no_compression gzip compress zip xz : CompressionType

-- `memcmp(magic, buf, n) == 0` on the n bytes of `magic`.
unfoldable pub same_bytes : List ℕ → List ℕ → Bool
same_bytes [] buf = true
same_bytes (m ∷ magic) [] = false
same_bytes (m ∷ magic) (c ∷ buf) = m == c && same_bytes magic buf

-- `XZ_HEADER_MAGIC` and `LZMA_HEADER_SOMETIMES`
abbrev pub xz_header_magic : List ℕ
xz_header_magic = 0xfd ∷ 0x37 ∷ 0x7a ∷ 0x58 ∷ 0x5a ∷ 0x00 ∷ []

abbrev pub lzma_header_sometimes : List ℕ
lzma_header_sometimes = 0x5d ∷ 0x00 ∷ 0x00 ∷ []

-- "Check for gzip & compress"
unfoldable pub gzip_or_compress : List ℕ → CompressionType
gzip_or_compress buf =
    if leb 2 (length buf) && get_or buf 0 0 == 0x1f
    then if get_or buf 1 0 == 0x8b
      then gzip
      else if get_or buf 1 0 == 0x9b
      then compress
      else no_compression
    else no_compression

-- "Check for zip"
unfoldable pub is_zip : List ℕ → Bool
is_zip buf =
    leb 4 (length buf)
    && (get_or buf 0 0 == 0x50
        && (get_or buf 1 0 == 0x4b && (get_or buf 2 0 == 0x03 && get_or buf 3 0 == 0x04)))

unfoldable pub is_xz : List ℕ → Bool
is_xz buf =
    if leb 6 (length buf) && same_bytes xz_header_magic buf
    then true
    else leb 3 (length buf) && same_bytes lzma_header_sometimes buf

unfoldable pub is_zipped : List ℕ → CompressionType
is_zipped buf = if length buf == 0 then no_compression else elim (gzip_or_compress buf) [
  | no_compression ↦ if is_zip buf then zip else if is_xz buf then xz else no_compression
  | gzip ↦ gzip
  | compress ↦ compress
  | zip ↦ zip
  | xz ↦ xz
]

-- What a call of `inflate` or `lzma_code` says: more to come, the end of the stream, no progress,
-- or an error.
pub data Code : Type 0 where
  code_ok stream_end no_progress code_error : Code

-- What such a call leaves: the decoder, the input that it did not take, and the bytes it wrote.
pub record Decoded (S : Type 0) : Type 0 where
  pub state : S
  pub left : List ℕ
  pub output : List ℕ
  pub code : Code

-- The library of a decoder: its start, which may fail, and a call on some input and some room.
pub record Codec (S : Type 0) : Type 0 where
  pub start : CompressionType → Option S
  pub decode : CompressionType → S → List ℕ → ℕ → Decoded S
