-- ===== src/Decompress/Whole.antt =====
-- The decoders of a whole buffer in ag_src/decompress.c: `decompress` and what it calls.
use libag.Common.{
  ℕ, zero, suc, ◌+◌, ◌-◌, ◌*◌, ◌/◌, ◌%◌, ◌^◌, ◌≤◌, ◌<◌, ◌≡◌, ◌≢◌, Option-cases, length-append,
  ltb_of_le, Bool-cases, inl, inr, arith, Bool, true, false, Option, none, some, List, [], ◌++◌,
  length, ltb, ◌==◌, if◌then◌else◌, Run, done, fault, looping,
}
use libag.Decompress.{
  CompressionType, no_compression, gzip, compress, zip, xz, Code, code_ok, stream_end, no_progress,
  code_error, Decoded, Codec,
}

abbrev page_size : ℕ
page_size = 4096

-- "result_size", a whole number of pages
unfoldable pub first_size : ℕ → ℕ
first_size buf_len = (buf_len + page_size - 1) / page_size * page_size

-- Whether one of the two loops goes round again. zlib's Z_BUF_ERROR ends both, lzma's is an error.
unfoldable pub again : {S : Type 0} → Decoded S → ℕ → Bool
again r room = elim r.code as (λ _. Bool) [
  | code_ok ↦ true
  | stream_end ↦ length r.output == room
  | no_progress ↦ length r.output == room
  | code_error ↦ false
]

-- What the code returns when both loops have ended.
unfoldable pub finish : Code → List ℕ → Option (List ℕ)
finish stream_end result = some result
finish code_ok result = none
finish no_progress result = none
finish code_error result = none

module _ {S : Type 0} (codec : Codec S) (ctype : CompressionType) (realloc : ℕ → Bool) where
  -- The two nested loops; `result` holds the `total_out` bytes decoded so far in an array of
  -- `result_size` bytes.
  unfoldable pub decode_loop : ℕ → S → List ℕ → ℕ → List ℕ → Run (Option (List ℕ))
  decode_loop zero s avail result_size result = looping
  decode_loop (suc fuel) s avail result_size result =
      let size = result_size * 2 % 2 ^ 64 in
      let r = codec.decode ctype s avail (size / 2) in
      let total = result ++ r.output in
      let rest = decode_loop fuel r.state r.left size total in
      if realloc size
      then if ltb size (length total)
        then fault
        else if again r (size / 2)
        then rest
        else done (finish r.code total)
      else done none

  -- `decompress_zlib` and `decompress_lzma`
  unfoldable pub decompress_stream : ℕ → List ℕ → Run (Option (List ℕ))
  decompress_stream fuel buf = elim (codec.start ctype) as (λ _. Run (Option (List ℕ))) [
    | none ↦ done none
    | some s ↦ decode_loop fuel s buf (first_size (length buf)) []
  ]

-- `none` is NULL with `*new_buf_len` 0: LZW and zip are "not yet supported".
unfoldable pub decompress :
    {S : Type 0} → Codec S → CompressionType → (ℕ → Bool) → ℕ → List ℕ → Run (Option (List ℕ))
decompress codec no_compression realloc fuel buf = done none
decompress codec gzip realloc fuel buf = decompress_stream codec gzip realloc fuel buf
decompress codec compress realloc fuel buf = done none
decompress codec zip realloc fuel buf = done none
decompress codec xz realloc fuel buf = decompress_stream codec xz realloc fuel buf

-- The decoder writes no more than there is room for.
abbrev pub WritesInRoom : {S : Type 0} → Codec S → Type 0
WritesInRoom codec =
    (t : CompressionType) (s : _) (avail : List ℕ) (room : ℕ)
    → length (codec.decode t s avail room).output ≤ room

-- `realloc` never gives half of the address space.
abbrev pub HasLimit : (ℕ → Bool) → Type 0
HasLimit realloc = (size : ℕ) → realloc size ≡ true → size < 2 ^ 63

if-not_fault :
    {A : Type 0} (b : Bool) (x y : Run A) → x ≢ fault → y ≢ fault → (if b then x else y) ≢ fault
if-not_fault true x y p q = p
if-not_fault false x y p q = q

module _ {S : Type 0} (codec : Codec S) (ctype : CompressionType) (realloc : ℕ → Bool)
    (writes : WritesInRoom codec) (limit : HasLimit realloc) where
  -- The bytes decoded so far fit in the array, so the room after them is behind none of its ends.
  decode_loop-in_bounds :
      (fuel : ℕ) (s : S) (avail : List ℕ) (result_size : ℕ) (result : List ℕ)
      → result_size < 2 ^ 63
      → length result ≤ result_size
      → decode_loop codec ctype realloc fuel s avail result_size result ≢ fault
  unfolding decode_loop
  decode_loop-in_bounds zero s avail result_size result small fits = λ e. ground (arith, e)
  decode_loop-in_bounds (suc fuel) s avail result_size result small fits =
      let size = result_size * 2 % 2 ^ 64 in
      let r = codec.decode ctype s avail (size / 2) in
      let total = result ++ r.output in
      let room : length total ≤ size =
        omega (arith, writes ctype s avail (size / 2), length-append {0} result r.output) in
      elim (Bool-cases (realloc size)) [
        | inl got ↦
            let next = decode_loop-in_bounds fuel r.state r.left size total (limit size got) room in
            let within : ltb size (length total) ≡ false = ltb_of_le size (length total) room in
            rw (got, within) (if-not_fault (again r (size / 2)) _ _ next (λ e. ground (arith, e)))
        | inr refused ↦ rw refused (λ e. ground (arith, e))
      ]

  decompress_stream-in_bounds :
      (fuel : ℕ) (buf : List ℕ)
      → length buf < 2 ^ 31
      → decompress_stream codec ctype realloc fuel buf ≢ fault
  unfolding decompress_stream first_size
  decompress_stream-in_bounds fuel buf small = elim (Option-cases (codec.start ctype)) [
    | inl refused ↦ rw (refused, decompress_stream) (λ e. ground (arith, e))
    | inr (s, e) ↦
        rw (e, decompress_stream)
          (decode_loop-in_bounds fuel s buf _ [] (omega arith) (omega arith))
  ]

-- No decoder of a whole buffer writes outside the array that it grows, for any number of rounds, if
-- the decoding library writes no more than there is room for and no allocation takes half of the
-- address space.
pub decompress-in_bounds :
    {S : Type 0} (codec : Codec S) (realloc : ℕ → Bool)
    → WritesInRoom codec
    → HasLimit realloc
    → (ctype : CompressionType) (fuel : ℕ) (buf : List ℕ) → length buf < 2 ^ 31
    → decompress codec ctype realloc fuel buf ≢ fault
unfolding decompress
decompress-in_bounds codec realloc writes limit no_compression fuel buf small =
    λ e. ground (arith, e)
decompress-in_bounds codec realloc writes limit compress fuel buf small = λ e. ground (arith, e)
decompress-in_bounds codec realloc writes limit zip fuel buf small = λ e. ground (arith, e)
decompress-in_bounds codec realloc writes limit gzip fuel buf small =
    decompress_stream-in_bounds codec gzip realloc writes limit fuel buf small
decompress-in_bounds codec realloc writes limit xz fuel buf small =
    decompress_stream-in_bounds codec xz realloc writes limit fuel buf small
