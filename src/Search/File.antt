-- ===== src/Search/File.antt =====
-- `search_file` and `search_stream` of ag_src/search.c, where files can be mapped and streams opened
-- (`HAVE_FOPENCOOKIE`), without the output, which the library does not make.
pub mod Reading
pub mod Equal
pub mod Stream
pub mod Zipped
use libag.Common.{
  ℕ, zero, suc, ◌+◌, ◌-◌, ◌*◌, ◌^◌, min, Bool, true, false, not, ◌&&◌, ◌||◌, Option, none, some,
  List, [], ◌∷◌, ◌++◌, length, take, drop, ltb, leb, ◌==◌, if◌then◌else◌, Run, done, fault, looping,
  ◌>>=◌,
}
use libag.Cstr.{Str}
use libag.Util.Binary.{is_binary}
use libag.Libag.Results.{ThrdResult, Memory}
use libag.Search.Literal.{Tables}
use libag.Search.Regex.{Exec}
use libag.Search.Buffer.{BufferOptions, Stats, search_buf}
use libag.Decompress.{CompressionType, no_compression, gzip, compress, zip, xz, is_zipped, Codec}
use libag.Decompress.Zfile.{
  Input, ZFile, Outcome, returned, exits, aborts, unfinished, ReadResult, zfile_read,
  decompress_open,
}

-- `st_mode`, as far as it is looked at.
pub data Mode : Type 0 where
  regular fifo other : Mode

-- `struct stat`
pub record Stat : Type 0 where
  pub st_ino : ℕ
  pub st_mode : Mode
  pub st_size : ℕ

-- What the system answers on an open file: `fstat`, `mmap` of its first bytes, the n-th call of `read`
-- with a count, the content of a named pipe, and the
-- `st_size` bytes that `malloc` gives as the buffer.
pub record OpenFile : Type 0 where
  pub fstat : Option Stat
  pub mapped : ℕ → Option (List ℕ)
  pub read : ℕ → ℕ → Option (List ℕ)
  pub piped : List ℕ
  pub garbage : List ℕ

-- `stat` and `open` of a path.
pub record FileAt : Type 0 where
  pub stat : Option Stat
  pub opened : Option OpenFile

-- The fields of `cli_options` that `search_file` reads, beside those of `search_buf`.
pub record FileOptions : Type 0 where
  pub buffer : BufferOptions
  pub stdout_inode : ℕ
  pub search_all_files : Bool
  pub search_zip_files : Bool

-- The lines that `getline` gives, each with its newline.
unfoldable pub getlines : List ℕ → List (List ℕ)
getlines [] = []
getlines (c ∷ rest) =
    if c == b'\n' then (c ∷ []) ∷ getlines rest else elim (getlines rest) as (λ _. List (List ℕ)) [
      | [] ↦ (c ∷ []) ∷ []
      | line ∷ lines ↦ (c ∷ line) ∷ lines
    ]

-- Whether a file is to be skipped after `stat` or `fstat`: it is the output, or neither a regular file
-- nor a named pipe.
unfoldable pub unsearchable : FileOptions → Stat → Bool
unsearchable opts st =
    (not (opts.stdout_inode == 0) && opts.stdout_inode == st.st_ino) || is_other st.st_mode
  where
    is_other : Mode → Bool
    is_other regular = false
    is_other fifo = false
    is_other other = true

-- "while (bytes_read < f_len)": the list is what the buffer holds up to `bytes_read`, `n` counts the
-- calls. A failed call takes one from `bytes_read`; in front of the buffer there is nothing. A read of
-- more than there is room for writes behind the buffer.
unfoldable pub read_loop : ℕ → (ℕ → ℕ → Option (List ℕ)) → ℕ → ℕ → List ℕ → Run (List ℕ)
read_loop zero read n f_len buf = looping
read_loop (suc fuel) read n f_len buf =
    if ltb (length buf) f_len
    then elim (read n f_len) as (λ _. Run (List ℕ)) [
      | none ↦
          if length buf == 0
          then fault
          else read_loop fuel read (suc n) f_len (take (length buf - 1) buf)
      | some bytes ↦
          if ltb f_len (length buf + length bytes)
          then fault
          else read_loop fuel read (suc n) f_len (buf ++ bytes)
    ]
    else done buf

-- The file without `mmap`; `none` is a binary file, which is skipped. The test for it looks at the
-- whole buffer, of which the first bytes are read.
unfoldable pub read_file : ℕ → BufferOptions → OpenFile → ℕ → Run (Option (List ℕ))
read_file fuel opts file f_len =
    let whole : List ℕ → ℕ → Run (Option (List ℕ)) =
      λ buf n. read_loop fuel file.read n f_len buf >>= λ bytes. done (some bytes) in
    if opts.search_binary_files
    then whole [] 0
    else elim (file.read 0 (min f_len 512)) as (λ _. Run (Option (List ℕ))) [
      | none ↦ if is_binary file.garbage then done none else fault
      | some bytes ↦
          if is_binary (bytes ++ drop (length bytes) file.garbage) then done none else whole bytes 1
    ]

-- What `mmap` or `read` leaves of the file behind the position of the descriptor.
unfoldable pub position : BufferOptions → List ℕ → Input
position opts buf = record { unread = if opts.mmap then buf else []; breaks = false }

-- The bytes of one call in front of those of the later calls.
unfoldable pub behind : List ℕ → Outcome (List ℕ) → Outcome (List ℕ)
behind bytes (returned more) = returned (bytes ++ more)
behind bytes exits = exits
behind bytes aborts = aborts
behind bytes unfinished = unfinished

-- The stream ends where a call gives nothing or fails.
unfoldable pub stream_on :
    {S : Type 0} → (ZFile S → Outcome (List ℕ)) → ReadResult S → Outcome (List ℕ)
stream_on next (returned (none, z)) = returned []
stream_on next (returned (some [], z)) = returned []
stream_on next (returned (some (c ∷ bytes), z)) = behind (c ∷ bytes) (next z)
stream_on next exits = exits
stream_on next aborts = aborts
stream_on next unfinished = unfinished

-- The calls of `zfile_read`, each for the buffer of a `FILE`.
unfoldable pub stream_bytes : {S : Type 0} → Codec S → ℕ → ℕ → ZFile S → Outcome (List ℕ)
stream_bytes codec zero bufsiz = λ z. unfinished
stream_bytes codec (suc fuel) bufsiz =
    λ z. stream_on (stream_bytes codec fuel bufsiz) (zfile_read codec fuel bufsiz z)

-- What a search of a file ends in: the results of a run, unless the process has ended.
abbrev pub Searched : Type 0
Searched = Outcome (Run (Stats × ThrdResult))

module _ {S : Type 0} (codec : Codec S) (pcre_exec : Exec) (opts : FileOptions) (query : List ℕ)
    (tables : Tables) (memory : ℕ → Memory) (path : Str) where
  -- `search_stream`: every line is searched as a buffer; the number of the line counts the searches.
  unfoldable pub search_stream : ℕ → List (List ℕ) → Stats → ThrdResult → Run (Stats × ThrdResult)
  search_stream i [] stats t = done (stats, t)
  search_stream i (line ∷ lines) stats t =
      search_buf pcre_exec opts.buffer query tables line (memory i) path stats t >>= λ r.
      search_stream (suc i) lines r.0 r.1

  -- A process that ends in the middle of the stream leaves nothing of it.
  unfoldable pub search_bytes : Stats → ThrdResult → Outcome (List ℕ) → Searched
  search_bytes stats t (returned bytes) = returned (search_stream 1 (getlines bytes) stats t)
  search_bytes stats t exits = exits
  search_bytes stats t aborts = aborts
  search_bytes stats t unfinished = unfinished

  -- The NULL of a stream that is not opened goes to `getline`.
  unfoldable pub search_decoded : ℕ → ℕ → Stats → ThrdResult → Option (ZFile S) → Searched
  search_decoded fuel bufsiz stats t none = returned fault
  search_decoded fuel bufsiz stats t (some z) =
      search_bytes stats t (stream_bytes codec fuel bufsiz z)

  -- A compressed file is searched as a stream.
  unfoldable pub search_zip : ℕ → ℕ → CompressionType → List ℕ → Stats → ThrdResult → Searched
  search_zip fuel bufsiz ctype buf stats t =
      search_decoded fuel bufsiz stats t
        (decompress_open codec true (position opts.buffer buf) ctype)

  -- "search_zip_files", and the search of the buffer.
  unfoldable pub search_contents : ℕ → ℕ → List ℕ → Stats → ThrdResult → Searched
  search_contents fuel bufsiz buf stats t =
      let plain : Searched =
        returned (search_buf pcre_exec opts.buffer query tables buf (memory 0) path stats t) in
      if opts.search_zip_files
      then elim (is_zipped buf) as (λ _. Searched) [
        | no_compression ↦ plain
        | gzip ↦ search_zip fuel bufsiz gzip buf stats t
        | compress ↦ search_zip fuel bufsiz compress buf stats t
        | zip ↦ search_zip fuel bufsiz zip buf stats t
        | xz ↦ search_zip fuel bufsiz xz buf stats t
      ]
      else plain

  -- The empty file: only the query "." is searched for, if all files are to be searched.
  unfoldable pub search_empty : Stats → ThrdResult → Searched
  search_empty stats t =
      if is_dot query && (not opts.buffer.literal && opts.search_all_files)
      then returned (search_buf pcre_exec opts.buffer query tables [] (memory 0) path stats t)
      else returned (done (stats, t))
    where
      is_dot : List ℕ → Bool
      is_dot (c ∷ []) = c == b'.'
      is_dot _ = false

  -- A file of some bytes, which are mapped or read.
  unfoldable pub search_regular : ℕ → ℕ → OpenFile → ℕ → Stats → ThrdResult → Searched
  search_regular fuel bufsiz file f_len stats t =
      if f_len == 0
      then search_empty stats t
      else if not opts.buffer.literal && ltb (2 ^ 31 - 1) f_len
      then returned (done (stats, t))
      else if opts.buffer.mmap
      then elim (file.mapped f_len) as (λ _. Searched) [
        | none ↦ returned (done (stats, t))
        | some buf ↦ search_contents fuel bufsiz buf stats t
      ]
      else elim (read_file fuel opts.buffer file f_len) as (λ _. Searched) [
        | done none ↦ returned (done (stats, t))
        | done (some buf) ↦ search_contents fuel bufsiz buf stats t
        | fault ↦ returned fault
        | looping ↦ returned looping
      ]

  -- "repeating stat check with file handle to prevent TOCTOU issue", and what follows.
  unfoldable pub search_opened : ℕ → ℕ → OpenFile → Stats → ThrdResult → Searched
  search_opened fuel bufsiz file stats t = elim (file.fstat) as (λ _. Searched) [
    | none ↦ returned (done (stats, t))
    | some st ↦
        if unsearchable opts st
        then returned (done (stats, t))
        else elim (st.st_mode) as (λ _. Searched) [
          | regular ↦ search_regular fuel bufsiz file st.st_size stats t
          | fifo ↦ returned (search_stream 1 (getlines file.piped) stats t)
          | other ↦ returned (done (stats, t))
        ]
  ]

  unfoldable pub search_file : ℕ → ℕ → FileAt → Stats → ThrdResult → Searched
  search_file fuel bufsiz at stats t = elim (at.stat) as (λ _. Searched) [
    | none ↦ returned (done (stats, t))
    | some st ↦
        if unsearchable opts st
        then returned (done (stats, t))
        else elim (at.opened) as (λ _. Searched) [
          | none ↦ returned (done (stats, t))
          | some file ↦ search_opened fuel bufsiz file stats t
        ]
  ]
