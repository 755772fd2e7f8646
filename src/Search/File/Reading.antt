-- ===== src/Search/File/Reading.antt =====
-- The two ways in which `search_file` of ag_src/search.c gets the bytes of a file.
use libag.Common.{
  ℕ, zero, suc, ◌+◌, ◌≤◌, ◌<◌, ◌≡◌, refl, sym, ap, ◌∙◌, min, true, false, not, ◌&&◌, Option, none,
  some, List, [], ◌∷◌, ◌++◌, append_assoc, append-nil, length, length-append, take, drop, ltb,
  if◌then◌else◌, done, arith, ltb_of_lt, ltb_of_le, Bool-cases, inl, inr, length-take_of_le,
  length-drop, take-drop,
}
use libag.Util.Binary.{is_binary}
use libag.Util.Binary.Prefix.{is_binary-first_bytes}
use libag.Search.Buffer.{BufferOptions}
use libag.Search.File.{OpenFile, read_loop, read_file}

-- From the n-th call on, `read` with the size of the file gives the rest of its content, a part of it
-- at each call.
pub data Serves (read : ℕ → ℕ → Option (List ℕ)) (f_len : ℕ) : ℕ → List ℕ → Type 0 where
  served : {n : ℕ} → Serves read f_len n []
  serve :
      {n c : ℕ} {cs rest : List ℕ}
      → read n f_len ≡ some (c ∷ cs)
      → Serves read f_len (suc n) rest
      → Serves read f_len n ((c ∷ cs) ++ rest)

module _ {read : ℕ → ℕ → Option (List ℕ)} {f_len : ℕ} where
  abbrev pub reads : {n : ℕ} {rest : List ℕ} → Serves read f_len n rest → ℕ
  reads served = 0
  reads (serve e d) = suc (reads d)

  pub read_loop-Serves :
      {n : ℕ} {rest : List ℕ} (d : Serves read f_len n rest) (fuel : ℕ) (buf : List ℕ)
      → length buf + length rest ≡ f_len
      → reads d < fuel
      → read_loop fuel read n f_len buf ≡ done (buf ++ rest)
  unfolding read_loop
  read_loop-Serves served (suc fuel) buf e enough =
      rw (ltb_of_le (length buf) f_len (omega (arith, e))) (ap done (sym (append-nil buf)))
  read_loop-Serves (serve {c = c} {cs = cs} {rest = rest} chunk d) (suc fuel) buf e enough =
      let total : length ((c ∷ cs) ++ rest) ≡ length (c ∷ cs) + length rest =
        length-append {0} (c ∷ cs) rest in
      let more : ltb (length buf) f_len ≡ true =
        ltb_of_lt (length buf) f_len (omega (arith, e, total)) in
      let fits : ltb f_len (length buf + length (c ∷ cs)) ≡ false =
        ltb_of_le f_len (length buf + length (c ∷ cs)) (omega (arith, e, total)) in
      rw (more, chunk, fits)
        (read_loop-Serves d fuel (buf ++ (c ∷ cs))
            (omega (arith, e, total, length-append {0} buf (c ∷ cs))) (omega arith)
          ∙ ap done (append_assoc buf (c ∷ cs) rest))
  read_loop-Serves d zero buf e enough = absurd (omega arith)

-- The file gives its content to `mmap` and to `read`.
pub record HasContent (file : OpenFile) (content : List ℕ) : Type 0 where
  pub mapping : file.mapped (length content) ≡ some content
  pub buffer : length file.garbage ≡ length content
  pub from_start : Serves file.read (length content) 0 content
  pub first_bytes :
      file.read 0 (min (length content) 512) ≡ some (take (min (length content) 512) content)
  pub behind_first : Serves file.read (length content) 1 (drop (min (length content) 512) content)

-- The calls of `read` that are enough in either case.
abbrev pub enough_reads : {file : OpenFile} {content : List ℕ} → HasContent file content → ℕ
enough_reads h = suc (reads h.from_start + reads h.behind_first)

-- What `read_file` gives: the content, or that it is to be skipped as binary.
pub read_file-content :
    (opts : BufferOptions) (file : OpenFile) (content : List ℕ) (fuel : ℕ)
    (h : HasContent file content)
    → enough_reads h ≤ fuel
    → read_file fuel opts file (length content)
      ≡ done (if not opts.search_binary_files && is_binary content then none else some content)
unfolding read_file
read_file-content opts file content fuel h enough = elim (Bool-cases opts.search_binary_files) [
  | inl all ↦
      rw (all, read_loop-Serves h.from_start fuel [] (omega arith) (omega (arith, enough))) refl
  | inr text ↦
      let same = is_binary-first_bytes content file.garbage h.buffer in
      elim (Bool-cases (is_binary content)) [
        | inl binary ↦ rw (text, h.first_bytes, same, binary) refl
        | inr plain ↦
            let n = min (length content) 512 in
            let first = take n content in
            let total : length first + length (drop n content) ≡ length content =
              omega (arith, length-take_of_le n content (omega arith), length-drop n content) in
            let rest = read_loop-Serves h.behind_first fuel first total (omega (arith, enough)) in
            rw (text, h.first_bytes, same, plain, rest)
              (ap (λ bytes. done (some bytes)) (take-drop n content))
      ]
]
