-- ===== src/Search/Buffer/Report.antt =====
-- What `search_buf` reports of a buffer.
use libag.Common.{
  ℕ, ◌+◌, ◌^◌, ◌<◌, ◌≤◌, ◌≡◌, refl, true, false, none, List, [], ◌∷◌, ◌++◌, All, length, done,
  Returns, Returns->>=, Returns-Ensures, arith, ◌>>=◌,
}
use libag.Cstr.{Str}
use libag.Util.Hash.Probe.{Serves}
use libag.Libag.Results.{Match, ThrdResult, Memory, Status, ok, failed, add_local_result}
use libag.Libag.Results.Added.{
  InBuffer, Plentiful, IsValid, owed, Appends, add_local_result-Appends, add_local_result-ok,
}
use libag.Search.Matches.{Matches}
use libag.Util.Literal.{IsComparable}
use libag.Search.Literal.{Tables}
use libag.Search.Literal.Scan.{Scan, search_literal-Scan}
use libag.Search.Regex.{Exec}
use libag.Search.Buffer.{
  BufferOptions, Stats, literal_options, no_matches, spare_of, skipped, reported_flag, count_stats,
  search_matches, final_matches, search_buf,
}

-- A search for text, as the library makes it.
pub record IsPlain (opts : BufferOptions) : Type 0 where
  pub literally : opts.literal ≡ true
  pub upright : opts.invert_match ≡ false
  pub no_words : opts.word_regexp ≡ none

module _ (pcre_exec : Exec) (opts : BufferOptions) (query : List ℕ) (tables : Tables)
    (buf : List ℕ) where
  Scan-InBuffer :
      (n o : ℕ) (ms : List Match)
      → 1 ≤ length query
      → Scan (literal_options opts) query tables buf n o ms
      → All (InBuffer buf) ms
  unfolding Scan
  Scan-InBuffer n o [] some_query s = tt
  Scan-InBuffer n o (m ∷ ms) some_query (from, len, fits, at, first, rest) =
      ((omega (arith, len), fits), Scan-InBuffer (n + 1) m.end ms some_query rest)

  -- What is reported: the occurrences of the query from left to right, or nothing for a binary file
  -- that is not to be searched.
  abbrev pub Reports : Str → Stats → ThrdResult → Stats × ThrdResult → Type 0
  Reports path stats t (stats', t') =
      (ms : List Match) × Scan (literal_options opts) query tables buf 0 0 ms
      × (t'.results ≡ t.results ++ owed path ms buf (reported_flag opts buf))
      × (stats' ≡ count_stats opts buf (length ms) stats)
      × IsValid t'

  abbrev IsFound : Matches → Type 0
  IsFound a = Scan (literal_options opts) query tables buf 0 0 a.matches

  search_matches-Scan :
      IsPlain opts
      → Serves query opts.case_sensitive tables.h_table
      → IsComparable opts.case_sensitive query
      → 3 ≤ length query
      → length query < 255
      → Returns IsFound (search_matches pcre_exec opts query tables buf)
  unfolding search_matches no_matches spare_of
  search_matches-Scan plain serves comparable three small = rw (plain.literally) (
      search_literal-Scan (literal_options opts) query tables buf (no_matches opts) serves
        comparable three small plain.no_words (ground arith) (ground arith) refl)

  final_matches_plain :
      (a : Matches)
      → IsPlain opts
      → final_matches pcre_exec opts query tables buf a ≡ done a.matches
  unfolding final_matches
  final_matches_plain a plain = rw (plain.upright) refl

  reported :
      (memory : Memory) (path : Str) (stats : Stats) (t : ThrdResult) (ms : List Match)
      → Scan (literal_options opts) query tables buf 0 0 ms
      → 1 ≤ length query
      → length buf < 2 ^ 64
      → Plentiful memory
      → IsValid t
      → Returns (Reports path stats t) (
          add_local_result memory t path ms buf (reported_flag opts buf) >>= λ r.
          done (count_stats opts buf (length ms) stats, r.1))
  reported memory path stats t ms scan some_query small mem v =
      Returns->>= (λ r. (r.0 ≡ ok) × Appends t (owed path ms buf (reported_flag opts buf)) r)
        (Reports path stats t) (add_local_result memory t path ms buf (reported_flag opts buf)) _
        (Returns-Ensures (λ r. r.0 ≡ ok) (Appends t (owed path ms buf (reported_flag opts buf)))
          (add_local_result memory t path ms buf (reported_flag opts buf))
          (add_local_result-ok buf small path (reported_flag opts buf) memory t ms mem ins)
          (add_local_result-Appends buf small path (reported_flag opts buf) memory t ms v ins))
        (λ r a. appended r a.0 a.1)
    where
      ins : All (InBuffer buf) ms
      ins = Scan-InBuffer 0 0 ms some_query scan

      appended :
          (r : Status × ThrdResult)
          → r.0 ≡ ok
          → Appends t (owed path ms buf (reported_flag opts buf)) r
          → Reports path stats t (count_stats opts buf (length ms) stats, r.1)
      appended (ok, t') e a = (ms, scan, a.0, refl, a.1)
      appended (failed, t') e a = absurd (ground arith)

  -- The search of a buffer for a query of 3 to 254 bytes, searched with the case or of
  -- ASCII bytes, that the
  -- table serves, with memory for the results: unless the file is skipped as binary, it returns and has appended one result for the file,
  -- with the occurrences from left to right and the bytes of each, or none if there is no occurrence.
  pub search_buf-Reports :
      (memory : Memory) (path : Str) (stats : Stats) (t : ThrdResult)
      → IsPlain opts
      → Serves query opts.case_sensitive tables.h_table
      → IsComparable opts.case_sensitive query
      → 3 ≤ length query
      → length query < 255
      → length buf < 2 ^ 64
      → Plentiful memory
      → IsValid t
      → skipped opts buf ≡ false
      → Returns
          (Reports path stats t)
          (search_buf pcre_exec opts query tables buf memory path stats t)
  unfolding search_buf
  search_buf-Reports memory path stats t plain serves comparable three small fits mem v
        not_skipped =
      rw not_skipped (
        Returns->>= IsFound (Reports path stats t) (search_matches pcre_exec opts query tables buf)
          _ (search_matches-Scan plain serves comparable three small)
          (λ a scan.
            rw (final_matches_plain a plain)
              (reported memory path stats t a.matches scan (omega arith) fits mem v)))
