-- ===== src/Search/File/Equal.antt =====
-- A file is searched alike by `search_file` of ag_src/search.c, whether it is mapped or read.
use libag.Common.{
  ℕ, ◌-◌, ◌^◌, ◌≤◌, ◌≡◌, refl, Bool, true, false, not, ◌&&◌, none, some, List, [], length, ltb,
  ◌==◌, if◌then◌else◌, done, Bool-cases, inl, inr, ◌⊎◌,
}
use libag.Cstr.{Str}
use libag.Util.Binary.{is_binary}
use libag.Libag.Results.{ThrdResult, Memory}
use libag.Search.Literal.{Tables}
use libag.Search.Regex.{Exec}
use libag.Search.Buffer.{
  BufferOptions, Stats, search_buf, search_matches, final_matches, reported_flag, skipped,
  count_stats, spare_of, no_matches,
}
use libag.Decompress.{Codec}
use libag.Decompress.Zfile.{returned}
use libag.Search.File.{
  Searched, Stat, FileAt, OpenFile, FileOptions, regular, search_file, search_opened,
  search_regular, search_empty, search_contents, unsearchable,
}
use libag.Search.File.Reading.{HasContent, enough_reads, read_file-content}

-- The options with and without `mmap`.
abbrev pub with_mmap : Bool → BufferOptions → BufferOptions
with_mmap b opts = record opts { mmap = b }

search_buf-with_mmap :
    (pcre_exec : Exec) (opts : BufferOptions) (query : List ℕ) (tables : Tables) (buf : List ℕ)
    (memory : Memory) (path : Str) (stats : Stats) (t : ThrdResult)
    → (opts.search_binary_files ≡ true) ⊎ (is_binary buf ≡ false)
    → search_buf pcre_exec (with_mmap true opts) query tables buf memory path stats t
      ≡ search_buf pcre_exec (with_mmap false opts) query tables buf memory path stats t
unfolding search_buf search_matches final_matches reported_flag skipped count_stats spare_of
    no_matches
search_buf-with_mmap pcre_exec opts query tables buf memory path stats t (inl all) = rw all refl
search_buf-with_mmap pcre_exec opts query tables buf memory path stats t (inr plain) =
    elim (Bool-cases opts.search_stream) [
      | inl streamed ↦ rw (plain, streamed) refl
      | inr file ↦ elim (Bool-cases opts.search_binary_files) [
        | inl all ↦ rw (plain, file, all) refl
        | inr text ↦ rw (plain, file, text) refl
      ]
    ]

skipped_or_searched :
    (all binary : Bool) (content : List ℕ) (searched : List ℕ → Searched) (mapped skip : Searched)
    → ((all ≡ true) ⊎ (binary ≡ false) → mapped ≡ searched content)
    → (all ≡ false → binary ≡ true → mapped ≡ skip)
    → mapped ≡ elim (if not all && binary then none else some content) as (λ _. Searched) [
      | none ↦ skip
      | some buf ↦ searched buf
    ]
skipped_or_searched true binary content searched mapped skip p q = p (inl refl)
skipped_or_searched false true content searched mapped skip p q = q refl refl
skipped_or_searched false false content searched mapped skip p q = p (inr refl)

if-eq :
    {A : Type 0} (b : Bool) {x x' y y' : A}
    → x ≡ x'
    → y ≡ y'
    → (if b then x else y) ≡ (if b then x' else y')
if-eq true p q = p
if-eq false p q = q

module _ {S : Type 0} (codec : Codec S) (pcre_exec : Exec) (query : List ℕ) (tables : Tables)
    (memory : ℕ → Memory) (path : Str) (opts : FileOptions)
    (not_streamed : opts.buffer.search_stream ≡ false)
    (no_zip : opts.search_zip_files ≡ false) where
  abbrev by_mmap : Bool → FileOptions
  by_mmap b = record opts { buffer = with_mmap b opts.buffer }

  search_contents-with_mmap :
      (buf : List ℕ) (stats : Stats) (t : ThrdResult) (fuel bufsiz : ℕ)
      → (opts.buffer.search_binary_files ≡ true) ⊎ (is_binary buf ≡ false)
      → search_contents codec pcre_exec
          (by_mmap true)
          query
          tables
          memory
          path
          fuel
          bufsiz
          buf
          stats
          t
        ≡ search_contents codec pcre_exec
            (by_mmap false)
            query
            tables
            memory
            path
            fuel
            bufsiz
            buf
            stats
            t
  unfolding search_contents
  search_contents-with_mmap buf stats t fuel bufsiz known =
      rw
        (
          no_zip,
          search_buf-with_mmap pcre_exec opts.buffer query tables buf (memory 0) path stats t known,
        )
        refl

  search_empty-with_mmap :
      (stats : Stats) (t : ThrdResult)
      → search_empty codec pcre_exec (by_mmap true) query tables memory path stats t
        ≡ search_empty codec pcre_exec (by_mmap false) query tables memory path stats t
  unfolding search_empty is_binary
  search_empty-with_mmap stats t =
      rw
        (search_buf-with_mmap pcre_exec opts.buffer query tables [] (memory 0) path stats t
          (inr refl))
        refl

  -- A binary file that is mapped is skipped by `search_buf`.
  search_contents-binary :
      (buf : List ℕ) (stats : Stats) (t : ThrdResult) (fuel bufsiz : ℕ)
      → opts.buffer.search_binary_files ≡ false
      → is_binary buf ≡ true
      → search_contents codec pcre_exec
          (by_mmap true)
          query
          tables
          memory
          path
          fuel
          bufsiz
          buf
          stats
          t
        ≡ returned (done (stats, t))
  unfolding search_contents search_buf skipped
  search_contents-binary buf stats t fuel bufsiz text binary =
      rw (no_zip, not_streamed, text, binary) refl

  search_regular-with_mmap :
      (file : OpenFile) (content : List ℕ) (stats : Stats) (t : ThrdResult) (fuel bufsiz : ℕ)
      (h : HasContent file content)
      → enough_reads h ≤ fuel
      → search_regular codec pcre_exec
          (by_mmap true)
          query
          tables
          memory
          path
          fuel
          bufsiz
          file
          (length content)
          stats
          t
        ≡ search_regular codec pcre_exec
            (by_mmap false)
            query
            tables
            memory
            path
            fuel
            bufsiz
            file
            (length content)
            stats
            t
  unfolding search_regular
  search_regular-with_mmap file content stats t fuel bufsiz h enough =
      rw (h.mapping, read_file-content (with_mmap false opts.buffer) file content fuel h enough)
        (if-eq (length content == 0) (search_empty-with_mmap stats t) (
          if-eq (not opts.buffer.literal && ltb (2 ^ 31 - 1) (length content)) refl (
            skipped_or_searched opts.buffer.search_binary_files (is_binary content) content _ _ _
              (search_contents-with_mmap content stats t fuel bufsiz)
              (search_contents-binary content stats t fuel bufsiz))))

  search_opened-with_mmap :
      (file : OpenFile) (content : List ℕ) (inode : ℕ) (stats : Stats) (t : ThrdResult)
      (fuel bufsiz : ℕ) (h : HasContent file content)
      → enough_reads h ≤ fuel
      → file.fstat ≡ some (record { st_ino = inode; st_mode = regular; st_size = length content })
      → search_opened codec pcre_exec
          (by_mmap true)
          query
          tables
          memory
          path
          fuel
          bufsiz
          file
          stats
          t
        ≡ search_opened codec pcre_exec
            (by_mmap false)
            query
            tables
            memory
            path
            fuel
            bufsiz
            file
            stats
            t
  unfolding search_opened unsearchable
  search_opened-with_mmap file content inode stats t fuel bufsiz h enough again =
      let st : Stat = record { st_ino = inode; st_mode = regular; st_size = length content } in
      rw again (
        if-eq (unsearchable (by_mmap true) st) {x = returned (done (stats, t))} refl (
          search_regular-with_mmap (record file { fstat = some st }) content stats t fuel bufsiz
            (record {
              mapping = h.mapping;
              buffer = h.buffer;
              from_start = h.from_start;
              first_bytes = h.first_bytes;
              behind_first = h.behind_first;
            })
            enough))

  -- With no search of compressed files, `search_file` gives the same results and counters for a
  -- regular file whether its bytes are mapped or read, if the file is the same when it is opened as at
  -- the first `stat`, and `read` gives its content in parts, the first 512 bytes at the first call.
  pub search_file-with_mmap :
      (file : OpenFile) (content : List ℕ) (inode : ℕ) (stats : Stats) (t : ThrdResult)
      (fuel bufsiz : ℕ) (h : HasContent file content)
      → enough_reads h ≤ fuel
      → let st : Stat = record { st_ino = inode; st_mode = regular; st_size = length content } in
        let at : FileAt = record { stat = some st; opened = some file } in
        file.fstat ≡ some st
        → search_file codec pcre_exec (by_mmap true) query tables memory path fuel bufsiz at stats t
          ≡ search_file codec pcre_exec
              (by_mmap false)
              query
              tables
              memory
              path
              fuel
              bufsiz
              at
              stats
              t
  unfolding search_file unsearchable
  search_file-with_mmap file content inode stats t fuel bufsiz h enough again =
      let st : Stat = record { st_ino = inode; st_mode = regular; st_size = length content } in
      if-eq (unsearchable (by_mmap true) st) {x = returned (done (stats, t))} refl
        (search_opened-with_mmap file content inode stats t fuel bufsiz h enough again)
