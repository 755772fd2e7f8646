-- ===== src/Tests/Files.antt =====
-- Runs of `search_file` on small files.
use libag.Common.{ℕ, suc, ◌≤◌, ◌≡◌, refl, true, false, none, some, List, [], ◌∷◌, arith}
use libag.Libag.Results.{ThrdResult}
use libag.Decompress.{gzip, stream_end}
use libag.Decompress.Zfile
use libag.Decompress.Zfile.{returned, exits}
use libag.Decompress.Zfile.Rounds.{last, refill}
use libag.Decompress.Zfile.Rounds.{Delivers}
use libag.Search.Literal.{Tables}
use libag.Search.Regex.{Exec}
use libag.Search.Buffer.{BufferOptions, Stats}
use libag.Search.File.{
  FileAt, OpenFile, FileOptions, regular, getlines, search_file, search_stream, search_zip,
}
use libag.Search.File.Reading.{HasContent, serve, served}
use libag.Search.File.Equal.{with_mmap, search_file-with_mmap}
use libag.Search.File.Zipped.{search_zip-whole, search_zip-exits}
use libag.Tests.Decompress.{copier, copy_until, stored}

program : Unit {0}
unfolding getlines copy_until Zfile.has_decoder
program = tt

abbrev any_byte : Exec
any_byte buf from = none

abbrev buffer_options : BufferOptions
buffer_options = record {
  search_stream = false;
  search_binary_files = false;
  mmap = true;
  invert_match = false;
  literal = true;
  case_sensitive = true;
  word_regexp = none;
  multiline = true;
  max_matches_per_file = 0;
  stats = true;
}

abbrev options : FileOptions
options = record {
  buffer = buffer_options;
  stdout_inode = 0;
  search_all_files = false;
  search_zip_files = false;
}

abbrev tables : Tables
tables = record { h_table = λ k. 0; alpha_skip = λ k. 1; find_skip = [] }

abbrev text : List ℕ
text = b'a' ∷ b'\n' ∷ b'b' ∷ []

two_lines : getlines text ≡ (b'a' ∷ b'\n' ∷ []) ∷ (b'b' ∷ []) ∷ []
unfolding program
two_lines = refl

-- The file comes in two parts, or whole at the first call for its first bytes.
abbrev file : OpenFile
file = record {
  fstat = some (record { st_ino = 7; st_mode = regular; st_size = 3 });
  mapped = λ n. some text;
  read = λ n count. some text;
  piped = [];
  garbage = 0 ∷ 0 ∷ 0 ∷ [];
}

abbrev file-HasContent : HasContent file text
file-HasContent = record {
  mapping = refl;
  buffer = refl;
  from_start = serve {n = 0} {c = b'a'} {cs = b'\n' ∷ b'b' ∷ []} {rest = []} refl served;
  first_bytes = refl;
  behind_first = served;
}

abbrev zero_stats : Stats
zero_stats = record { total_bytes = 0; total_files = 0; total_matches = 0; total_file_matches = 0 }

abbrev slot : ThrdResult
slot = record { capacity = 4; results = [] }

abbrev stated : FileAt
stated = record {
  stat = some (record { st_ino = 7; st_mode = regular; st_size = 3 });
  opened = some file;
}

search_file-with_mmap_example :
    search_file copier any_byte
      (record options { buffer = with_mmap true buffer_options })
      text
      tables
      (λ i n. true)
      (b'f' ∷ [])
      9
      4096
      stated
      zero_stats
      slot
    ≡ search_file copier any_byte
        (record options { buffer = with_mmap false buffer_options })
        text
        tables
        (λ i n. true)
        (b'f' ∷ [])
        9
        4096
        stated
        zero_stats
        slot
search_file-with_mmap_example =
    search_file-with_mmap copier any_byte text tables (λ i n. true) (b'f' ∷ []) options refl refl
      file text 7 zero_stats slot 9 4096 file-HasContent (omega arith) refl

stored-Delivers : Delivers copier gzip 0 [] stored (7 ∷ 8 ∷ 9 ∷ [])
unfolding program
stored-Delivers = refill refl (last refl refl)

known : Zfile.has_decoder gzip ≡ true
unfolding program
known = refl

decoded :
    copy_until stored Zfile.outbuf_size
    ≡ record { state = 0; left = []; output = 7 ∷ 8 ∷ 9 ∷ []; code = stream_end }
unfolding program
decoded = refl

search_zip-whole_example :
    (rounds : ℕ) × ((fuel : ℕ)
      → rounds ≤ fuel
      → search_zip copier any_byte options text tables
          (λ i n. true)
          (b'f' ∷ [])
          (suc (suc fuel))
          4096
          gzip
          stored
          zero_stats
          slot
        ≡ returned (
            search_stream copier any_byte options text tables
              (λ i n. true)
              (b'f' ∷ [])
              1
              (getlines (7 ∷ 8 ∷ 9 ∷ []))
              zero_stats
              slot))
search_zip-whole_example =
    search_zip-whole copier any_byte text tables (λ i n. true) (b'f' ∷ []) options refl gzip 0
      stored (7 ∷ 8 ∷ 9 ∷ []) zero_stats slot 4096 known refl stored-Delivers (omega arith)
      (omega arith)

search_zip-exits_example :
    search_zip copier any_byte options text tables
      (λ i n. true)
      (b'f' ∷ [])
      8
      2
      gzip
      stored
      zero_stats
      slot
    ≡ exits
search_zip-exits_example =
    search_zip-exits copier any_byte text tables (λ i n. true) (b'f' ∷ []) options refl gzip 0 0 7
      (8 ∷ 9 ∷ 0 ∷ []) (7 ∷ 8 ∷ 9 ∷ []) zero_stats slot 2 5 known refl (omega arith) decoded
      (omega arith) (omega arith) (omega arith) (omega arith)
