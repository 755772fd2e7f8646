-- ===== src/Decompress/Zfile.antt =====
-- ag_src/zfile.c: a compressed file as a stream that can be read, sought forward and rewound. The
-- pointers into `outbuf` and `inbuf` are lists: `outbuf` ends at `next_out`, `avail` is the input
-- from `next_in` on.
pub mod Seek
pub mod Rounds
pub mod Reads
pub mod Ends
use libag.Common.{
  ℕ, zero, suc, ◌+◌, ◌-◌, ◌*◌, ◌%◌, ◌^◌, ◌≡◌, Bool, true, false, not, ◌&&◌, ◌||◌, Option, none,
  some, List, [], ◌∷◌, ◌++◌, length, take, drop, ltb, leb, ◌==◌, if◌then◌else◌, min,
}
use libag.Common.Int.{ℤ, pos, negsuc}
use libag.Decompress.{
  CompressionType, no_compression, gzip, compress, zip, xz, Code, code_ok, stream_end, no_progress,
  code_error, Decoded, Codec,
}

-- The `FILE` that is read: the bytes behind its position, and whether reading on behind them is an
-- error and not the end of the file.
pub record Input : Type 0 where
  pub unread : List ℕ
  pub breaks : Bool

-- `struct zfile`; `stream` is `none` where the decoder is not set up.
pub record ZFile (S : Type 0) : Type 0 where
  pub input : Input
  pub logic_offset : ℕ
  pub decode_offset : ℕ
  pub actual_len : ℕ
  pub outbuf_start : ℕ
  pub ctype : CompressionType
  pub stream : Option S
  pub avail : List ℕ
  pub outbuf : List ℕ
  pub eof : Bool

-- `errno`, 0 included.
pub data Errno : Type 0 where
  no_error eio einval : Errno

-- Sizes of `inbuf` and `outbuf`.
abbrev pub inbuf_size : ℕ
inbuf_size = 32 * 1024

abbrev pub outbuf_size : ℕ
outbuf_size = 256 * 1024

-- `uint64_t` addition.
abbrev pub add_offset : ℕ → ℕ → ℕ
add_offset a b = (a + b) % 2 ^ 64

-- The outcome of a call: it returns, or it ends the process by `exit(1)` or by a failed `assert`.
-- `unfinished` says that the given number of rounds was not enough.
pub data Outcome (A : Type 0) : Type 0 where
  returned : A → Outcome A
  exits : Outcome A
  aborts : Outcome A
  unfinished : Outcome A

-- `none` is a return of -1. The bytes are those that are copied to `buf`.
abbrev pub ReadResult : Type 0 → Type 0
ReadResult S = Outcome (Option (List ℕ) × ZFile S)

-- Draining the output buffer. The `assert` before has found nothing to skip, so that the first round
-- either satisfies the read or empties the buffer, and there is no second.
unfoldable pub drain : {S : Type 0} → ZFile S → ℕ → List ℕ × ZFile S
drain z size =
    let chunk = take size (drop z.outbuf_start z.outbuf) in
    (
      chunk,
      record z {
        outbuf_start = z.outbuf_start + length chunk;
        decode_offset = add_offset z.decode_offset (length chunk);
        logic_offset = add_offset z.logic_offset (length chunk);
      },
    )

-- "Read more input if empty"; `none` is `exit(1)`, on an error or on a truncated file.
unfoldable pub fill : {S : Type 0} → ZFile S → Option (ZFile S)
fill {S = S} z = elim z.avail as (λ _. Option (ZFile S)) [
  | [] ↦
      let bytes = take inbuf_size z.input.unread in
      if ltb (length bytes) inbuf_size && (z.input.breaks || length bytes == 0)
      then none
      else some (record z {
        avail = bytes;
        input = record { unread = drop inbuf_size z.input.unread; breaks = z.input.breaks };
      })
  | x ∷ xs ↦ some z
]

-- What a call of the decoder leaves in the cookie, with its code; `actual_len` is not counted on after
-- an error.
unfoldable pub take_decoded : {S : Type 0} → ZFile S → Decoded S → Code × ZFile S
take_decoded {S = S} z r =
    let z' = record z {
      stream = some r.state;
      avail = r.left;
      outbuf = r.output;
      outbuf_start = 0;
    } in
    let counted = record z' { actual_len = add_offset z.actual_len (length r.output) } in
    elim r.code as (λ _. Code × ZFile S) [
      | code_ok ↦ (code_ok, counted)
      | stream_end ↦ (stream_end, counted)
      | no_progress ↦ (code_error, z')
      | code_error ↦ (code_error, z')
    ]

-- "Reset stream state to beginning of output buffer", and the call of the decoder. One that is not set
-- up fails.
unfoldable pub inflate : {S : Type 0} → Codec S → ZFile S → Code × ZFile S
inflate {S = S} codec z = elim z.stream as (λ _. Code × ZFile S) [
  | none ↦ (code_error, record z { outbuf = []; outbuf_start = 0 })
  | some s ↦ take_decoded z (codec.decode z.ctype s z.avail outbuf_size)
]

unfoldable pub has_decoder : CompressionType → Bool
has_decoder no_compression = false
has_decoder gzip = true
has_decoder compress = false
has_decoder zip = false
has_decoder xz = true

module _ {S : Type 0} (codec : Codec S) where
  -- The tests behind the call of the decoder; `next` is the next round of the loop, which is told
  -- whether this call of `zfile_read` has seen the end of the stream.
  unfoldable pub go_on :
      (Bool → ℕ → List ℕ → ZFile S → ReadResult S) → ℕ → List ℕ → Code × ZFile S → ReadResult S
  go_on next size total (code_ok, z) = next false size total z
  go_on next size total (stream_end, z) = next (has_decoder z.ctype) size total z
  go_on next size total (no_progress, z) = returned (none, z)
  go_on next size total (code_error, z) = returned (none, z)

  -- The loop of `zfile_read` behind the draining; without more input the process has ended.
  unfoldable pub decode_filled :
      (Bool → ℕ → List ℕ → ZFile S → ReadResult S) → ℕ → List ℕ → Option (ZFile S) → ReadResult S
  decode_filled next size total none = exits
  decode_filled next size total (some z) = go_on next size total (inflate codec z)

  -- One round; `total` is what the call has copied so far.
  unfoldable pub read_round :
      (Bool → ℕ → List ℕ → ZFile S → ReadResult S) → Bool → ℕ → List ℕ → ZFile S → ReadResult S
  read_round next ended size total z =
      let (chunk, z') = drain z size in
      let left = size - length chunk in
      let copied = total ++ chunk in
      if left == 0
      then returned (some copied, z')
      else if not (z'.outbuf_start == length z'.outbuf)
      then aborts
      else if ended
      then returned (some copied, record z' { eof = true })
      else decode_filled next left copied (fill z')

  unfoldable pub read_rounds : ℕ → Bool → ℕ → List ℕ → ZFile S → ReadResult S
  read_rounds zero = λ ended size total z. unfinished
  read_rounds (suc fuel) = read_round (read_rounds fuel)

  unfoldable pub zfile_read : ℕ → ℕ → ZFile S → ReadResult S
  zfile_read fuel size z =
      if ltb (2 ^ 63 - 1) size
      then aborts
      else if size == 0
      then returned (some [], z)
      else if z.eof
      then returned (some [], z)
      else if not (z.logic_offset == z.decode_offset)
      then aborts
      else read_rounds fuel false size [] z

  -- `zfile_cookie_init`; the two asserts are on offsets that both callers set to 0.
  unfoldable pub zfile_cookie_init : ZFile S → Errno × ZFile S
  zfile_cookie_init z =
      if has_decoder z.ctype
      then elim (codec.start z.ctype) as (λ _. Errno × ZFile S) [
        | none ↦ (eio, record z { actual_len = 0; stream = none })
        | some s ↦ (
          no_error,
          record z {
            actual_len = 0;
            stream = some s;
            avail = [];
            outbuf = [];
            outbuf_start = 0;
            eof = false;
          },
        )
      ]
      else (einval, record z { actual_len = 0 })

  -- What `decompress_open` returns after the set-up, if `malloc` succeeds; `none` is NULL, where the
  -- file is closed.
  unfoldable pub opened : Bool → Errno × ZFile S → Option (ZFile S)
  opened false (error, z) = none
  opened true (no_error, z) = some z
  opened true (eio, z) = none
  opened true (einval, z) = none

  -- `decompress_open` on a file opened for reading; `memory` says whether `malloc` succeeds. The fields
  -- that `malloc` leaves unset are set before they are read.
  unfoldable pub decompress_open : Bool → Input → CompressionType → Option (ZFile S)
  decompress_open memory input ctype =
      let cookie : ZFile S = record {
        input = input;
        logic_offset = 0;
        decode_offset = 0;
        actual_len = 0;
        outbuf_start = 0;
        ctype = ctype;
        stream = none;
        avail = [];
        outbuf = [];
        eof = false;
      } in
      opened memory (zfile_cookie_init cookie)
