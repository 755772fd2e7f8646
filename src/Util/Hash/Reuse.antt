-- ===== src/Util/Hash/Reuse.antt =====
-- `generate_hash` on a table that is not empty. `ag_search` calls it for every literal query on the
-- one global `h_table`, which nothing clears.
use libag.Common.{
  Ensures, Ensures->>=, Ensures-map, ℕ, zero, suc, ◌+◌, ◌-◌, ◌*◌, ◌%◌, ◌≤◌, ◌<◌, ◌≡◌, ◌≢◌, refl,
  sym, ap, ◌∙◌, Bool, true, false, List, [], ◌∷◌, All, length, ==_of_ne, ltb_of_lt, ltb_of_le,
  leb_of_le, ℕ_discrete, done, fault, looping, arith,
}
use libag.Util.Hash.{
  Table, h_size, empty_table, find_free, insert_word, caps_word, caps_sets, hash_caps, hash_from,
  generate_hash, probe, step_through, hash_strnstr,
}
use libag.Util.Hash.Table.{cell}
use libag.Util.Hash.Stored.{Stored}
use libag.Util.Hash.Words.{text_word}
use libag.Util.Hash.Probe.{Serves}
use libag.Util.Hash.Correct.{generate_hash-Serves}

find_free-zero :
    (fuel : ℕ) (table : Table) (h : ℕ) → Ensures (λ j. table j ≡ 0) (find_free fuel table h)
unfolding find_free
find_free-zero zero table h = tt
find_free-zero (suc fuel) table h = elim (ℕ_discrete (table h) 0) [
  | yes e ↦ rw e e
  | no ne ↦ rw (==_of_ne (table h) 0 ne) (find_free-zero fuel table ((h + 1) % h_size))
]

-- Cells in use stay as they are.
abbrev pub Extends : Table → Table → Type 0
Extends table table' = (h : ℕ) → table h ≢ 0 → table' h ≡ table h

insert_word-Extends :
    (fuel : ℕ) (table : Table) (word i : ℕ)
    → Ensures (Extends table) (insert_word fuel table word i)
unfolding insert_word
insert_word-Extends fuel table word i =
    Ensures->>= (λ j. table j ≡ 0) (Extends table) (find_free fuel table (word % h_size)) _
      (find_free-zero fuel table (word % h_size))
      (λ j free h used. rw (==_of_ne h j (λ e. used (ap table e ∙ free))) refl)

Extends-trans : (a b c : Table) → Extends a b → Extends b c → Extends a c
Extends-trans a b c p q h used = q h (λ e. used (sym (p h used) ∙ e)) ∙ p h used

hash_caps-Extends :
    (fuel : ℕ) (find : List ℕ) (i : ℕ) (caps : List ℕ) (table : Table)
    → Ensures (Extends table) (hash_caps fuel find i caps table)
unfolding hash_caps
hash_caps-Extends fuel find i [] table = λ h used. refl
hash_caps-Extends fuel find i (c ∷ caps) table =
    Ensures->>= (Extends table) (Extends table) (insert_word fuel table (caps_word find i c) i) _
      (insert_word-Extends fuel table (caps_word find i c) i)
      (λ mid p.
        Ensures-map (Extends mid) (Extends table) _ (λ last q. Extends-trans table mid last p q)
          (hash_caps-Extends fuel find i caps mid))

hash_from-Extends :
    (fuel : ℕ) (find : List ℕ) (cs : Bool) (n : ℕ) (table : Table)
    → Ensures (Extends table) (hash_from fuel find cs n table)
unfolding hash_from
hash_from-Extends fuel find cs zero table = λ h used. refl
hash_from-Extends fuel find cs (suc i) table =
    Ensures->>= (Extends table) (Extends table) (hash_caps fuel find i (caps_sets cs) table) _
      (hash_caps-Extends fuel find i (caps_sets cs) table)
      (λ mid p.
        Ensures-map (Extends mid) (Extends table) _ (λ last q. Extends-trans table mid last p q)
          (hash_from-Extends fuel find cs i mid))

pub generate_hash-Extends :
    (find : List ℕ) (table : Table) (cs : Bool) {table' : Table}
    → generate_hash find table cs ≡ done table'
    → Extends table table'
unfolding generate_hash
generate_hash-Extends find table cs e =
    rw e at (hash_from-Extends h_size find cs (length find - 1) table)

module _ (s find : List ℕ) (table : Table) (cs : Bool) where
  probe_foreign :
      (fuel s_i h : ℕ) → 0 < fuel → s_i + 1 < table h → probe s find table cs fuel s_i h ≡ fault
  unfolding probe
  probe_foreign zero s_i h pos past = absurd (omega arith)
  probe_foreign (suc fuel) s_i h pos past =
      rw (==_of_ne (table h) 0 (omega arith)) (rw (ltb_of_lt (s_i + 1) (table h) past) refl)

  step_through_foreign :
      (fuel s_i : ℕ)
      → 0 < fuel
      → s_i ≤ length s - length find
      → s_i + 1 < table (text_word s s_i % h_size)
      → step_through s find table cs fuel s_i ≡ fault
  unfolding step_through
  step_through_foreign zero s_i pos le past = absurd (omega arith)
  step_through_foreign (suc fuel) s_i pos le past =
      rw
        (
          leb_of_le s_i (length s - length find) le,
          probe_foreign h_size s_i (text_word s s_i % h_size) (omega arith) past,
        )
        refl

  -- A value past the query in the first word that is looked up: its place is in front of the text.
  foreign_value_fault :
      2 ≤ length find
      → 2 * length find ≤ length s + 2
      → length find ≤ table (text_word s (length find - 2) % h_size)
      → hash_strnstr s find table cs ≡ fault
  unfolding hash_strnstr
  foreign_value_fault two fits past = rw (ltb_of_le (length s) (length find) (omega arith)) (
      step_through_foreign (length s + 1) (length find - 2) (omega arith) (omega arith)
        (omega arith))

first_caps : (P : ℕ → Type 0) (cs : Bool) → All P (caps_sets cs) → P 0
first_caps P true all = all.0
first_caps P false all = all.0

-- The home cell of the last word of a query holds the last place.
last_word-le :
    (find : List ℕ) (cs : Bool) (table : Table)
    → 2 ≤ length find
    → Serves find cs table
    → length find - 1 ≤ table (caps_word find (length find - 2) 0 % h_size)
last_word-le find cs table two serves =
    let (k, at, before) = stored in
    let home : cell word 0 ≡ word % h_size = omega arith in
    elim (ℕ_discrete k 0) [
      | yes e ↦ omega (arith, at, ap (λ n. table (cell word n)) e, ap table home)
      | no ne ↦ omega (arith, before 0 (omega arith), ap table home)
    ]
  where
    word : ℕ
    word = caps_word find (length find - 2) 0

    stored : Stored table word (suc (length find - 2))
    stored =
        first_caps (λ c. Stored table (caps_word find (length find - 2) c) (suc (length find - 2)))
          cs (serves.holds (length find - 2) (omega arith))

-- A shorter query after a longer one, on the table of both: where the text has the last two bytes
-- of the longer query at the first place that is looked up, the search reads in front of the text.
pub reused_table_fault :
    (s first second : List ℕ) (cs cs' : Bool) {table table' : Table}
    → 2 ≤ length second
    → length second < length first
    → length first < 256
    → 2 * length second ≤ length s + 2
    → generate_hash first empty_table cs ≡ done table
    → generate_hash second table cs' ≡ done table'
    → text_word s (length second - 2) ≡ caps_word first (length first - 2) 0
    → hash_strnstr s second table' cs' ≡ fault
reused_table_fault s first second cs cs' {table} {table'} two longer small fits built rebuilt same =
    foreign_value_fault s second table' cs' two fits (omega (arith, high, kept, moved))
  where
    home : ℕ
    home = caps_word first (length first - 2) 0 % h_size

    high : length first - 1 ≤ table home
    high =
        last_word-le first cs table (omega arith)
          (rw built at (generate_hash-Serves first cs (omega arith) small))

    kept : table' home ≡ table home
    kept = generate_hash-Extends second table cs' rebuilt home (omega (arith, high))

    moved : table' (text_word s (length second - 2) % h_size) ≡ table' home
    moved = ap (λ (w : ℕ). table' (w % h_size)) same

-- On a table with no free cell the search for one never ends, whatever the number of rounds.
find_free_full :
    (fuel : ℕ) (table : Table) (h : ℕ)
    → ((j : ℕ) → j < h_size → table j ≢ 0)
    → h < h_size
    → find_free fuel table h ≡ looping
unfolding find_free
find_free_full zero table h full lt = refl
find_free_full (suc fuel) table h full lt =
    rw (==_of_ne (table h) 0 (full h lt))
      (find_free_full fuel table ((h + 1) % h_size) full (omega arith))

-- So `generate_hash` does not return on a full table, for any query of two bytes or more.
pub hash_from_full :
    (fuel : ℕ) (find : List ℕ) (cs : Bool) (n : ℕ) (table : Table)
    → ((j : ℕ) → j < h_size → table j ≢ 0)
    → hash_from fuel find cs (suc n) table ≡ looping
unfolding hash_from hash_caps insert_word
hash_from_full fuel find true n table full =
    rw (find_free_full fuel table (caps_word find n 0 % h_size) full (omega arith)) refl
hash_from_full fuel find false n table full =
    rw (find_free_full fuel table (caps_word find n 0 % h_size) full (omega arith)) refl
