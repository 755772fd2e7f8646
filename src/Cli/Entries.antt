-- ===== src/Cli/Entries.antt =====
-- The table of the long options of ag_src/options.c, `base_longopts`.
use libag.Common.{ℕ, Bool, true, false}
use libag.Cli.{CliOptions, print_top, print_each_line}

-- The entries, by name.
pub data LongOption : Type 0 where
  opt_ackmate opt_ackmate_dir_filter opt_affinity opt_after opt_all_text opt_all_types opt_before
        opt_break opt_case_sensitive opt_color opt_color_line_number opt_color_match opt_color_path
        opt_color_win_ansi opt_column opt_context opt_count opt_debug opt_depth opt_filename
        opt_filename_pattern opt_file_search_regex opt_files_with_matches opt_files_without_matches
        opt_fixed_strings opt_follow opt_group opt_heading opt_help opt_hidden opt_ignore
        opt_ignore_case opt_ignore_dir opt_invert_match opt_line_numbers opt_list_file_types
        opt_literal opt_match opt_max_count opt_mmap opt_multiline opt_no_affinity opt_noaffinity
        opt_no_break opt_nobreak opt_no_color opt_nocolor opt_no_filename opt_nofilename
        opt_no_follow opt_nofollow opt_no_group opt_nogroup opt_no_heading opt_noheading opt_no_mmap
        opt_nommap opt_no_multiline opt_nomultiline opt_no_numbers opt_nonumbers opt_no_pager
        opt_nopager opt_no_recurse opt_norecurse opt_null opt_numbers opt_only_matching
        opt_one_device opt_pager opt_parallel opt_passthrough opt_passthru opt_path_to_ignore
        opt_print0 opt_print_all_files opt_print_long_lines opt_recurse opt_search_binary
        opt_search_files opt_search_zip opt_silent opt_skip_vcs_ignores opt_smart_case opt_stats
        opt_stats_only opt_unrestricted opt_version opt_vimgrep opt_width opt_word_regexp
        opt_workers :
      LongOption

-- The entries with no variable and no short option, where the switch goes by the name.
pub data NamedOption : Type 0 where
  named_ackmate_dir_filter named_color_line_number named_color_match named_color_path named_depth
        named_filename named_ignore named_ignore_dir named_no_filename named_nofilename
        named_no_pager named_nopager named_pager named_print_all_files named_silent named_stats_only
        named_workers :
      NamedOption

-- What an entry says: a field of `opts` or a local variable that `getopt_long` sets, the short option
-- that it stands for, or neither of them.
pub data Entry : Type 0 where
  sets_opts : (CliOptions → CliOptions) → Entry
  sets_group : Bool → Entry
  lists_file_types : Entry
  asks_version : Entry
  sets_useless : Entry
  short_for : ℕ → Entry
  by_name : NamedOption → Entry

unfoldable pub base_longopts : LongOption → Entry
base_longopts opt_ackmate = sets_opts (λ o. record o { ackmate = true })
base_longopts opt_ackmate_dir_filter = by_name named_ackmate_dir_filter
base_longopts opt_affinity = sets_opts (λ o. record o { use_thread_affinity = true })
base_longopts opt_after = short_for b'A'
base_longopts opt_all_text = short_for b't'
base_longopts opt_all_types = short_for b'a'
base_longopts opt_before = short_for b'B'
base_longopts opt_break = sets_opts (λ o. record o { print_break = true })
base_longopts opt_case_sensitive = short_for b's'
base_longopts opt_color = sets_opts (λ o. record o { color = true })
base_longopts opt_color_line_number = by_name named_color_line_number
base_longopts opt_color_match = by_name named_color_match
base_longopts opt_color_path = by_name named_color_path
base_longopts opt_color_win_ansi = sets_opts (λ o. record o { color_win_ansi = true })
base_longopts opt_column = sets_opts (λ o. record o { column = true })
base_longopts opt_context = short_for b'C'
base_longopts opt_count = short_for b'c'
base_longopts opt_debug = short_for b'D'
base_longopts opt_depth = by_name named_depth
base_longopts opt_filename = by_name named_filename
base_longopts opt_filename_pattern = short_for b'g'
base_longopts opt_file_search_regex = short_for b'G'
base_longopts opt_files_with_matches = short_for b'l'
base_longopts opt_files_without_matches = short_for b'L'
base_longopts opt_fixed_strings = short_for b'F'
base_longopts opt_follow = sets_opts (λ o. record o { follow_symlinks = true })
base_longopts opt_group = sets_group true
base_longopts opt_heading = sets_opts (λ o. record o { print_path = print_top })
base_longopts opt_help = short_for b'h'
base_longopts opt_hidden = sets_opts (λ o. record o { search_hidden_files = true })
base_longopts opt_ignore = by_name named_ignore
base_longopts opt_ignore_case = short_for b'i'
base_longopts opt_ignore_dir = by_name named_ignore_dir
base_longopts opt_invert_match = short_for b'v'
base_longopts opt_line_numbers = sets_opts (λ o. record o { print_line_numbers = 2 })
base_longopts opt_list_file_types = lists_file_types
base_longopts opt_literal = short_for b'Q'
base_longopts opt_match = sets_useless
base_longopts opt_max_count = short_for b'm'
base_longopts opt_mmap = sets_opts (λ o. record o { mmap = true })
base_longopts opt_multiline = sets_opts (λ o. record o { multiline = true })
base_longopts opt_no_affinity = sets_opts (λ o. record o { use_thread_affinity = false })
base_longopts opt_noaffinity = sets_opts (λ o. record o { use_thread_affinity = false })
base_longopts opt_no_break = sets_opts (λ o. record o { print_break = false })
base_longopts opt_nobreak = sets_opts (λ o. record o { print_break = false })
base_longopts opt_no_color = sets_opts (λ o. record o { color = false })
base_longopts opt_nocolor = sets_opts (λ o. record o { color = false })
base_longopts opt_no_filename = by_name named_no_filename
base_longopts opt_nofilename = by_name named_nofilename
base_longopts opt_no_follow = sets_opts (λ o. record o { follow_symlinks = false })
base_longopts opt_nofollow = sets_opts (λ o. record o { follow_symlinks = false })
base_longopts opt_no_group = sets_group false
base_longopts opt_nogroup = sets_group false
base_longopts opt_no_heading = sets_opts (λ o. record o { print_path = print_each_line })
base_longopts opt_noheading = sets_opts (λ o. record o { print_path = print_each_line })
base_longopts opt_no_mmap = sets_opts (λ o. record o { mmap = false })
base_longopts opt_nommap = sets_opts (λ o. record o { mmap = false })
base_longopts opt_no_multiline = sets_opts (λ o. record o { multiline = false })
base_longopts opt_nomultiline = sets_opts (λ o. record o { multiline = false })
base_longopts opt_no_numbers = sets_opts (λ o. record o { print_line_numbers = 0 })
base_longopts opt_nonumbers = sets_opts (λ o. record o { print_line_numbers = 0 })
base_longopts opt_no_pager = by_name named_no_pager
base_longopts opt_nopager = by_name named_nopager
base_longopts opt_no_recurse = short_for b'n'
base_longopts opt_norecurse = short_for b'n'
base_longopts opt_null = short_for b'0'
base_longopts opt_numbers = sets_opts (λ o. record o { print_line_numbers = 2 })
base_longopts opt_only_matching = short_for b'o'
base_longopts opt_one_device = sets_opts (λ o. record o { one_dev = true })
base_longopts opt_pager = by_name named_pager
base_longopts opt_parallel = sets_opts (λ o. record o { parallel = true })
base_longopts opt_passthrough = sets_opts (λ o. record o { passthrough = true })
base_longopts opt_passthru = sets_opts (λ o. record o { passthrough = true })
base_longopts opt_path_to_ignore = short_for b'p'
base_longopts opt_print0 = short_for b'0'
base_longopts opt_print_all_files = by_name named_print_all_files
base_longopts opt_print_long_lines = sets_opts (λ o. record o { print_long_lines = true })
base_longopts opt_recurse = short_for b'r'
base_longopts opt_search_binary = sets_opts (λ o. record o { search_binary_files = true })
base_longopts opt_search_files = sets_opts (λ o. record o { search_stream = false })
base_longopts opt_search_zip = sets_opts (λ o. record o { search_zip_files = true })
base_longopts opt_silent = by_name named_silent
base_longopts opt_skip_vcs_ignores = short_for b'U'
base_longopts opt_smart_case = short_for b'S'
base_longopts opt_stats = sets_opts (λ o. record o { stats = true })
base_longopts opt_stats_only = by_name named_stats_only
base_longopts opt_unrestricted = short_for b'u'
base_longopts opt_version = asks_version
base_longopts opt_vimgrep = sets_opts (λ o. record o { vimgrep = true })
base_longopts opt_width = short_for b'W'
base_longopts opt_word_regexp = short_for b'w'
base_longopts opt_workers = by_name named_workers
