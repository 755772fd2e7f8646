-- ===== src/Tests/Buffers.antt =====
-- The search of a buffer, and the walk over a small tree.
use libag.Common.{
  inr, ℕ, ◌+◌, ◌≡◌, ◌≢◌, refl, inl, ltb, if◌then◌else◌, true, false, none, some, List, [], ◌∷◌,
  length, done, looping, Returns, Returns-value, arith,
}
use libag.Common.Int.{pos}
use libag.Cstr.{tolower}
use libag.Util.Entry.{Dirent, reg}
use libag.Util.Hash.{Table, empty_table, generate_hash}
use libag.Util.Hash.Probe.{Serves}
use libag.Util.Hash.Correct.{generate_hash-Serves}
use libag.Util.BoyerMoore.{
  generate_alpha_skip, alpha_rounds, generate_find_skip, prefix_rounds, find_rounds, suffix_round,
  suffix_len, suffix_rounds, is_prefix, agree, boyer_moore_strnstr, moore_rounds, compare_back,
}
use libag.Util.BoyerMoore.Sound.{Occurs, boyer_moore_strnstr-Occurs}
use libag.Util.Literal.{fold, same_char, IsComparable}
use libag.Libag.Results.{ThrdResult, Memory}
use libag.Libag.Results.Added.{IsValid}
use libag.Search.Matches.{Matches, add_match, realloc_matches}
use libag.Search.Literal.{Tables, search_literal}
use libag.Search.Literal.Scan.{Scan, search_literal-Scan}
use libag.Search.Regex.{
  Exec, behind, reached, multiline_loop, lines_loop, line_loop, buf_getline, line_len, search_regex,
}
use libag.Search.Regex.Bounds.{Behaves, Ordered, search_regex-Ordered}
use libag.Search.Invert.{
  Inversion, invert_matches, invert_loop, at_match, at_line_end, read_next, store_inverted,
  store_cell,
}
use libag.Search.Invert.Stuck.{invert_loop-looping}
use libag.Search.Buffer.{BufferOptions, Stats, literal_options, search_buf, skipped, spare_of}
use libag.Search.Buffer.Report.{Reports, search_buf-Reports}
use libag.Search.Scandir.{ag_scandir, accepted, ag_scandir-accepted}
use libag.Search.Walk.{entries, FileSystem, WalkOptions, Walk, search_dir}
use libag.Search.Walk.Course.{Sound, Grows, search_dir-Grows}
use libag.Ignore.Filter.{filename_filter}
use libag.Ignore.Filter.Total.{Answers, filename_filter-Answers}

program : Unit {0}
unfolding generate_alpha_skip alpha_rounds generate_find_skip prefix_rounds find_rounds suffix_round
    suffix_len suffix_rounds is_prefix agree boyer_moore_strnstr moore_rounds compare_back fold
    tolower same_char add_match realloc_matches behind reached multiline_loop lines_loop line_loop
    buf_getline line_len search_regex invert_matches invert_loop at_match at_line_end read_next
    store_inverted store_cell
program = tt

-- "one two"
abbrev text : List ℕ
text = b'o' ∷ (b'n' ∷ (b'e' ∷ (b' ' ∷ (b't' ∷ (b'w' ∷ (b'o' ∷ []))))))

abbrev two : List ℕ
two = b't' ∷ (b'w' ∷ (b'o' ∷ []))

moore_hit :
    boyer_moore_strnstr text two true (alpha_rounds two true 2 2) (generate_find_skip two true)
    ≡ done (some 4)
unfolding program
moore_hit = refl

-- A pattern that finds every byte.
abbrev any_byte : Exec
any_byte s o = if ltb o (length s) then some (o, o + 1) else none

any_byte-Behaves : Behaves any_byte
any_byte-Behaves = record { inside = λ s o start end e. ground arith }

abbrev no_array : Matches
no_array = record { matches_size = 0; matches = [] }

-- "a", a line end, "b"
abbrev two_lines : List ℕ
two_lines = b'a' ∷ (10 ∷ (b'b' ∷ []))

-- Both lines without their matches: the inversion of a match of the first line.
invert_first :
    invert_matches two_lines
      (record { start = 0; end = 1 } ∷ (record { start = 0; end = 0 } ∷ []))
      1
    ≡ done (record { start = 2; end = 2 } ∷ (record { start = 0; end = 0 } ∷ []), 1)
unfolding program
invert_first = refl

search_regex-Ordered_example :
    Returns (λ a. Ordered two_lines 0 a.matches) (search_regex any_byte 0 0 two_lines true no_array)
search_regex-Ordered_example =
    search_regex-Ordered any_byte 0 0 two_lines any_byte-Behaves (omega arith) no_array
      (inl (refl, refl)) refl

served :
    (table : Table) × (generate_hash two empty_table false ≡ done table) × Serves two false table
served =
    Returns-value (Serves two false) (generate_hash two empty_table false)
      (generate_hash-Serves two false (omega arith) (omega arith))

abbrev tables : Tables
tables = record { h_table = served.0; alpha_skip = λ c. 3; find_skip = [] }

abbrev buffer_options : BufferOptions
buffer_options = record {
  search_stream = false;
  search_binary_files = true;
  mmap = true;
  invert_match = false;
  literal = true;
  case_sensitive = false;
  word_regexp = none;
  multiline = true;
  max_matches_per_file = 0;
  stats = true;
}

abbrev slot : ThrdResult
slot = record { capacity = 100; results = [] }

slot-IsValid : IsValid slot
slot-IsValid = record { room = omega arith; some_room = omega arith }

abbrev zero_stats : Stats
zero_stats = record { total_bytes = 0; total_files = 0; total_matches = 0; total_file_matches = 0 }

abbrev plenty : Memory
plenty n = true

two-IsComparable : IsComparable false two
two-IsComparable = inr (omega arith, (omega arith, (omega arith, tt)))

search_literal-Scan_example :
    Returns
      (λ a. Scan (literal_options buffer_options) two tables text 0 0 a.matches)
      (search_literal (literal_options buffer_options) two tables text no_array)
unfolding spare_of
search_literal-Scan_example =
    search_literal-Scan (literal_options buffer_options) two tables text no_array served.2
      two-IsComparable (omega arith) (omega arith) refl (omega arith) (inl (refl, refl)) refl

search_buf-Reports_example :
    Returns
      (Reports any_byte buffer_options two tables text (b'f' ∷ []) zero_stats slot)
      (search_buf any_byte buffer_options two tables text plenty (b'f' ∷ []) zero_stats slot)
unfolding skipped
search_buf-Reports_example =
    search_buf-Reports any_byte buffer_options two tables text plenty (b'f' ∷ []) zero_stats slot
      (record { literally = refl; upright = refl; no_words = refl }) served.2 two-IsComparable
      (omega arith) (omega arith) (omega arith) (λ n. refl) slot-IsValid not_skipped
  where
    not_skipped : skipped buffer_options text ≡ false
    not_skipped = refl

-- A directory "d" with a file "f".
abbrev file : Dirent
file = record { d_name = b'f' ∷ []; d_type = reg; stat = some reg; lstat = some reg }

abbrev fs : FileSystem
fs = record {
  key = λ path. some (1, 2);
  device = λ path. some 1;
  open_dir = λ path. entries (file ∷ []);
  read_file = λ path. none;
}

fs-Sound : Sound fs
fs-Sound = record { real_keys = λ path e. ground arith; named = λ path es e. ground arith }

abbrev walk_options : WalkOptions
walk_options = record {
  filter = record {
    search_hidden_files = false;
    follow_symlinks = false;
    search_all_files = false;
    path_to_ignore = false;
  };
  one_dev = false;
  recurse_dirs = true;
  skip_vcs_ignores = false;
  max_search_depth = pos 25;
}

abbrev nowhere : Walk
nowhere = record { symhash = []; found = [] }

search_dir-Grows_example :
    Returns (Grows (b'd' ∷ []) nowhere) (
      search_dir fs
        (λ p s. false)
        (λ s. false)
        plenty
        walk_options
        26
        []
        0
        []
        (b'd' ∷ [])
        0
        nowhere)
search_dir-Grows_example =
    search_dir-Grows fs (λ p s. false) (λ s. false) plenty walk_options fs-Sound 25 refl 26 [] 0 []
      (b'd' ∷ []) 0 nowhere (omega arith) (omega arith)

ag_scandir-accepted_example :
    ag_scandir (λ d. done true) plenty (file ∷ []) ≡ done (some (accepted (λ d. true) (file ∷ [])))
ag_scandir-accepted_example =
    ag_scandir-accepted (λ d. done true) (λ d. true) plenty (file ∷ []) (λ d. refl) (λ n. refl)

file_named : file.d_name ≢ []
file_named e = ground arith

filename_filter-Answers_example :
    Answers (filename_filter (λ p s. false) (λ s. false) walk_options.filter [] [] file)
filename_filter-Answers_example =
    filename_filter-Answers (λ p s. false) (λ s. false) walk_options.filter [] [] file file_named

boyer_moore_strnstr-Occurs_example :
    Returns
      (Occurs true two text)
      (boyer_moore_strnstr text two true (λ c. 3) (generate_find_skip two true))
boyer_moore_strnstr-Occurs_example = boyer_moore_strnstr-Occurs text two true (λ c. 3) (omega arith)

abbrev inversion : Inversion
inversion = record {
  cells = record { start = 1; end = 1 } ∷ [];
  next_match = record { start = 1; end = 1 };
  match_read_index = 1;
  inverted_match_count = 0;
  inverted_match_start = 0;
  last_line_end = 0;
  in_inverted_match = false;
}

invert_loop-looping_example : invert_loop two_lines 1 9 1 inversion ≡ looping
invert_loop-looping_example =
    invert_loop-looping two_lines 1 9 1 inversion (omega arith) refl refl (omega arith) refl
