-- ===== src/Search/File/Zipped.antt =====
-- The stream of a compressed file that `search_file` of ag_src/search.c reads.
use libag.Common.{
  ℕ, suc, ◌^◌, ◌≤◌, ◌<◌, ◌≡◌, refl, ap, ◌∙◌, true, some, List, [], ◌∷◌, length, arith,
}
use libag.Cstr.{Str}
use libag.Libag.Results.{ThrdResult, Memory}
use libag.Search.Literal.{Tables}
use libag.Search.Regex.{Exec}
use libag.Search.Buffer.{Stats}
use libag.Decompress.{CompressionType, Codec, stream_end}
use libag.Decompress.Zfile
use libag.Decompress.Zfile.{
  ZFile, Outcome, returned, exits, aborts, unfinished, ReadResult, has_decoder, zfile_read,
  zfile_cookie_init, decompress_open, add_offset, inbuf_size, outbuf_size, decode_filled, go_on,
  read_rounds,
}
use libag.Decompress.Zfile.Rounds.{holds}
use libag.Decompress.Zfile.Rounds.{Delivers, state_at}
use libag.Search.File.{
  FileOptions, getlines, search_stream, search_decoded, search_bytes, search_zip, position,
}
use libag.Search.File.Stream.{stream_bytes-whole, stream_bytes-one_call}

module _ {S : Type 0} (codec : Codec S) (pcre_exec : Exec) (query : List ℕ) (tables : Tables)
    (memory : ℕ → Memory) (path : Str) (opts : FileOptions) (mapped : opts.buffer.mmap ≡ true) where
  zip_opened :
      (ctype : CompressionType) (s : S) (buf : List ℕ)
      → has_decoder ctype ≡ true
      → codec.start ctype ≡ some s
      → decompress_open codec true (position opts.buffer buf) ctype
        ≡ some (state_at codec ctype (some s) [] buf [] 0 0 0)
  unfolding decompress_open zfile_cookie_init position Zfile.opened
  zip_opened ctype s buf known starts = rw (known, starts, mapped) refl

  -- A mapped file that holds one compressed stream, of a content that is shorter than the buffer of a
  -- stream, is searched line by line in the decoded content.
  pub search_zip-whole :
      (ctype : CompressionType) (s : S) (buf content : List ℕ) (stats : Stats) (t : ThrdResult)
      (bufsiz : ℕ)
      → has_decoder ctype ≡ true
      → codec.start ctype ≡ some s
      → Delivers codec ctype s [] buf content
      → length content < bufsiz
      → bufsiz < 2 ^ 63
      → (rounds : ℕ) × ((fuel : ℕ)
          → rounds ≤ fuel
          → search_zip codec pcre_exec opts query tables memory path
              (suc (suc fuel))
              bufsiz
              ctype
              buf
              stats
              t
            ≡ returned (
                search_stream codec pcre_exec opts query tables memory path 1
                  (getlines content)
                  stats
                  t))
  unfolding search_zip search_decoded search_bytes
  search_zip-whole ctype s buf content stats t bufsiz known starts d short small =
      let (rounds, whole) =
        stream_bytes-whole codec bufsiz
          (holds {outbuf = []} {offset = 0} {len = 0} {start = 0} (omega arith) d) short small in
      (
        rounds,
        λ fuel enough.
            let search =
              search_decoded codec pcre_exec opts query tables memory path (suc (suc fuel)) bufsiz
                stats t in
            ap search (zip_opened ctype s buf known starts)
            ∙ ap (search_bytes codec pcre_exec opts query tables memory path stats t)
                (whole fuel enough),
      )

  -- A mapped file of at most 32 KB that one call of the decoder decodes, to a content that is not
  -- shorter than the buffer of a stream, ends the process.
  pub search_zip-exits :
      (ctype : CompressionType) (s s' : S) (c : ℕ) (cs content : List ℕ) (stats : Stats)
      (t : ThrdResult) (bufsiz fuel : ℕ)
      → has_decoder ctype ≡ true
      → codec.start ctype ≡ some s
      → length (c ∷ cs) ≤ inbuf_size
      → codec.decode ctype s (c ∷ cs) outbuf_size
        ≡ record { state = s'; left = []; output = content; code = stream_end }
      → 0 < bufsiz
      → bufsiz ≤ length content
      → bufsiz < 2 ^ 63
      → length content ≤ fuel
      → search_zip codec pcre_exec opts query tables memory path
          (suc (suc (suc fuel)))
          bufsiz
          ctype
          (c ∷ cs)
          stats
          t
        ≡ exits
  unfolding search_zip search_decoded search_bytes
  search_zip-exits ctype s s' c cs content stats t bufsiz fuel known starts fits decoded nonzero
        long small enough =
      let search =
        search_decoded codec pcre_exec opts query tables memory path (suc (suc (suc fuel))) bufsiz
          stats t in
      ap search (zip_opened ctype s (c ∷ cs) known starts)
      ∙ ap (search_bytes codec pcre_exec opts query tables memory path stats t) (
          stream_bytes-one_call codec ctype s s' c cs content bufsiz fuel fits decoded nonzero long
            small enough)
