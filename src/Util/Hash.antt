-- ===== src/Util/Hash.antt =====
-- `generate_hash` and `hash_strnstr` of ag_src/util.c: literal search by a table of two-byte words.
pub mod Table
pub mod Stored
pub mod Words
pub mod Probe
pub mod Correct
pub mod Reuse
use libag.Common.{
  ℕ, zero, suc, ◌+◌, ◌-◌, ◌*◌, ◌/◌, ◌%◌, ◌^◌, Bool, true, false, Option, none, some, List, [], ◌∷◌,
  length, drop, get_or, ltb, leb, ◌==◌, if◌then◌else◌, Run, done, fault, looping, ◌>>=◌,
}
use libag.Util.Literal.{match_here, match_cell}

abbrev pub h_size : ℕ
h_size = 65_536

-- `uint8_t h_table[H_SIZE]`, by index.
abbrev pub Table : Type 0
Table = ℕ → ℕ

abbrev pub empty_table : Table
empty_table h = 0

abbrev pub update : Table → ℕ → ℕ → Table
update table h v j = if j == h then v else table j

-- "Find next free cell"
unfoldable pub find_free : ℕ → Table → ℕ → Run ℕ
find_free zero table h = looping
find_free (suc fuel) table h =
    let rest = find_free fuel table ((h + 1) % h_size) in if table h == 0 then done h else rest

-- One store of `i + 1`, cut to a byte, for a word.
unfoldable pub insert_word : ℕ → Table → ℕ → ℕ → Run Table
insert_word fuel table word i =
    find_free fuel table (word % h_size) >>= λ h. done (update table h ((i + 1) % 256))

-- `word.as_chars[cap_index] -= 'a' - 'A'` if the bit of `caps_set` is 1, on a byte.
unfoldable pub capitalize : ℕ → ℕ → ℕ → ℕ
capitalize caps_set cap_index c = if caps_set / 2 ^ cap_index % 2 == 1 then (c + 224) % 256 else c

-- `as_word` on a little-endian machine.
abbrev pub as_word : ℕ → ℕ → ℕ
as_word c0 c1 = c0 + 256 * c1

abbrev pub caps_word : List ℕ → ℕ → ℕ → ℕ
caps_word find i caps_set =
    as_word (capitalize caps_set 0 (get_or find i 0))
      (capitalize caps_set 1 (get_or find (i + 1) 0))

-- The values of `caps_set` that are reached: the loop breaks at once if case matters.
abbrev pub caps_sets : Bool → List ℕ
caps_sets true = 0 ∷ []
caps_sets false = 0 ∷ (1 ∷ (2 ∷ (3 ∷ [])))

unfoldable pub hash_caps : ℕ → List ℕ → ℕ → List ℕ → Table → Run Table
hash_caps fuel find i [] table = done table
hash_caps fuel find i (caps ∷ rest) table =
    insert_word fuel table (caps_word find i caps) i >>= hash_caps fuel find i rest

-- `for (i = f_len - sizeof(uint16_t); i >= 0; i--)`, at `i + 1` rounds left.
unfoldable pub hash_from : ℕ → List ℕ → Bool → ℕ → Table → Run Table
hash_from fuel find cs zero table = done table
hash_from fuel find cs (suc i) table =
    hash_caps fuel find i (caps_sets cs) table >>= hash_from fuel find cs i

unfoldable pub generate_hash : List ℕ → Table → Bool → Run Table
generate_hash find table cs = hash_from h_size find cs (length find - 1) table

module _ (s find : List ℕ) (table : Table) (cs : Bool) where
  -- The inner loop of `hash_strnstr` over the cells of a word. A place before `s` is a fault.
  unfoldable pub probe : ℕ → ℕ → ℕ → Run (Option ℕ)
  probe zero s_i h = looping
  probe (suc fuel) s_i h =
      let rest = probe fuel s_i ((h + 1) % h_size) in
      let check : Run (Option ℕ) = match_cell cs find (drop (s_i + 1 - table h) s) >>= λ found.
      if found then done (some (s_i + 1 - table h)) else rest in
      if table h == 0 then done none else if ltb (s_i + 1) (table h) then fault else check

  -- "Check tail"
  unfoldable pub check_tail : ℕ → ℕ → Run (Option ℕ)
  check_tail zero s_i = looping
  check_tail (suc fuel) s_i =
      let rest = check_tail fuel (s_i + 1) in
      let check : Run (Option ℕ) =
        match_here cs find (drop s_i s) >>= λ found. if found then done (some s_i) else rest in
      if leb s_i (length s - length find) then check else done none

  -- "Step through s", then the tail from `s_i - step + 1`: at the first window `s_i - step` wraps,
  -- and the sum is still `s_i + 1 - step`.
  unfoldable pub step_through : ℕ → ℕ → Run (Option ℕ)
  step_through zero s_i = looping
  step_through (suc fuel) s_i =
      let rest = step_through fuel (s_i + (length find - 1)) in
      let window : Run (Option ℕ) =
        probe h_size s_i (as_word (get_or s s_i 0) (get_or s (s_i + 1) 0) % h_size) >>= λ r.
        elim r as (λ _. Run (Option ℕ)) [ some at ↦ done (some at) | none ↦ rest ] in
      if leb s_i (length s - length find)
      then window
      else check_tail (length s + 1) (s_i + 1 - (length find - 1))

  unfoldable pub hash_strnstr : Run (Option ℕ)
  hash_strnstr =
      if ltb (length s) (length find)
      then done none
      else step_through (length s + 1) (length find - 2)
