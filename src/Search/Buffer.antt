-- ===== src/Search/Buffer.antt =====
-- `search_buf` of ag_src/search.c, where the library is used (`has_ag_init`).
pub mod Report
use libag.Common.{
  ℕ, zero, suc, ◌+◌, ◌-◌, Bool, true, false, not, ◌&&◌, ◌||◌, Option, none, some, List, [], ◌∷◌,
  ◌++◌, length, take, replicate, ltb, ◌==◌, if◌then◌else◌, Run, done, ◌>>=◌,
}
use libag.Cstr.{Str}
use libag.Util.Binary.{is_binary}
use libag.Libag.Results.{Match, Flag, text_file, binary_file, ThrdResult, Memory, add_local_result}
use libag.Search.Matches.{Matches}
use libag.Search.Literal.{Tables, LiteralOptions, search_literal}
use libag.Search.Regex.{Exec, search_regex}
use libag.Search.Invert.{invert_matches}

-- The fields of `cli_options` that `search_buf` reads.
pub record BufferOptions : Type 0 where
  pub search_stream : Bool
  pub search_binary_files : Bool
  pub mmap : Bool
  pub invert_match : Bool
  pub literal : Bool
  pub case_sensitive : Bool
  pub word_regexp : Option (Bool × Bool)
  pub multiline : Bool
  pub max_matches_per_file : ℕ
  pub stats : Bool

-- The counters of `ag_stats`.
pub record Stats : Type 0 where
  pub total_bytes : ℕ
  pub total_files : ℕ
  pub total_matches : ℕ
  pub total_file_matches : ℕ

-- "matches_spare"
unfoldable pub spare_of : BufferOptions → ℕ
spare_of opts = if opts.invert_match then 1 else 0

unfoldable pub no_matches : BufferOptions → Matches
no_matches opts = record { matches_size = if opts.invert_match then 100 else 0; matches = [] }

abbrev pub literal_options : BufferOptions → LiteralOptions
literal_options opts = record {
  case_sensitive = opts.case_sensitive;
  word_regexp = opts.word_regexp;
  max_matches_per_file = opts.max_matches_per_file;
  matches_spare = spare_of opts;
}

-- Whether the file is skipped at the start, as binary.
unfoldable pub skipped : BufferOptions → List ℕ → Bool
skipped opts buf =
    not opts.search_stream && (not opts.search_binary_files && opts.mmap && is_binary buf)

-- `binary` where a result is reported: a stream is text, and what the start has tested is.
unfoldable pub reported_flag : BufferOptions → List ℕ → Flag
reported_flag opts buf =
    if opts.search_stream
    then text_file
    else if not opts.search_binary_files && opts.mmap
    then text_file
    else if is_binary buf
    then binary_file
    else text_file

unfoldable pub count_stats : BufferOptions → List ℕ → ℕ → Stats → Stats
count_stats opts buf matches_len s =
    if opts.stats
    then record s {
      total_bytes = s.total_bytes + length buf;
      total_files = s.total_files + 1;
      total_matches = s.total_matches + matches_len;
      total_file_matches =
          if ltb 0 matches_len then s.total_file_matches + 1 else s.total_file_matches;
    }
    else s

abbrev no_match : Match
no_match = record { start = 0; end = 0 }

module _ (pcre_exec : Exec) (opts : BufferOptions) (query : List ℕ) (tables : Tables)
    (buf : List ℕ) where
  -- The three ways to search. The query "." takes the whole buffer.
  unfoldable pub search_matches : Run Matches
  search_matches =
      if not opts.literal && (length query == 1 && is_dot query)
      then done (record { matches_size = 1; matches = record { start = 0; end = length buf } ∷ [] })
      else if opts.literal
      then search_literal (literal_options opts) query tables buf (no_matches opts)
      else search_regex pcre_exec opts.max_matches_per_file (spare_of opts) buf opts.multiline
          (no_matches opts)
    where
      is_dot : List ℕ → Bool
      is_dot [] = false
      is_dot (c ∷ rest) = c == b'.'

  unfoldable pub final_matches : Matches → Run (List Match)
  final_matches a =
      let cells = a.matches ++ replicate (a.matches_size - length a.matches) no_match in
      let inverted = invert_matches buf cells (length a.matches) >>= λ r. done (take r.1 r.0) in
      if opts.invert_match then inverted else done a.matches

  -- The whole function, without its output: `opts.print_all_paths` and `print_filename_only` are not
  -- set in the library. The result of `add_local_result` is not looked at.
  unfoldable pub search_buf : Memory → Str → Stats → ThrdResult → Run (Stats × ThrdResult)
  search_buf memory dir_full_path stats t =
      let searched : Run (Stats × ThrdResult) = search_matches >>= λ a. final_matches a >>= λ ms.
      add_local_result memory t dir_full_path ms buf (reported_flag opts buf) >>= λ r.
      done (count_stats opts buf (length ms) stats, r.1) in
      if skipped opts buf then done (stats, t) else searched
