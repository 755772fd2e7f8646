-- ===== src/Util/Hash/Table.antt =====
-- Open addressing with steps of one: free cells, and where the value of a word is found again.
use libag.Common.{
  ℕ, zero, suc, ◌+◌, ◌-◌, ◌%◌, ◌≤◌, ◌<◌, ◌≡◌, ◌≢◌, refl, ap, ◌∙◌, ◌==◌, ==_of_ne, if◌then◌else◌,
  ℕ_discrete, dec_lt, Returns, arith,
}
use libag.Util.Hash.{Table, empty_table, h_size, update, find_free}

-- The cell after `k` steps from the cell of a word.
abbrev pub cell : ℕ → ℕ → ℕ
cell word k = (word + k) % h_size

pub cell-suc : (word k : ℕ) → (cell word k + 1) % h_size ≡ cell word (suc k)
cell-suc word k = omega arith

-- How many of the first `n` cells are in use.
pub count_used : Table → ℕ → ℕ
count_used table zero = 0
count_used table (suc n) = if table n == 0 then count_used table n else suc (count_used table n)

-- No cell of a fresh table is in use.
pub count_used-empty_table : (n : ℕ) → count_used empty_table n ≡ 0
unfolding count_used
count_used-empty_table zero = refl
count_used-empty_table (suc n) = count_used-empty_table n

count_used-le : (table : Table) (n : ℕ) → count_used table n ≤ n
unfolding count_used
count_used-le table zero = omega arith
count_used-le table (suc n) = ground (arith, count_used-le table n)

pub free_cell : (table : Table) (n : ℕ) → count_used table n < n → (z : ℕ) × (z < n) × (table z ≡ 0)
unfolding count_used
free_cell table zero h = absurd (omega arith)
free_cell table (suc n) h = elim (ℕ_discrete (table n) 0) [
  | yes e ↦ (n, omega arith, e)
  | no ne ↦
      let (z, lt, e) = free_cell table n (ground (arith, ==_of_ne (table n) 0 ne)) in
      (z, omega arith, e)
]

count_used-update_above :
    (table : Table) (h v n : ℕ) → n ≤ h → count_used (update table h v) n ≡ count_used table n
unfolding count_used
count_used-update_above table h v zero le = refl
count_used-update_above table h v (suc n) le =
    rw (==_of_ne n h (omega arith), count_used-update_above table h v n (omega arith)) refl

pub count_used-update :
    (table : Table) (h v n : ℕ) → count_used (update table h v) n ≤ suc (count_used table n)
unfolding count_used
count_used-update table h v zero = omega arith
count_used-update table h v (suc n) = elim (ℕ_discrete n h) [
  | yes e ↦ ground (arith, count_used-update_above table h v n (omega arith))
  | no ne ↦ rw (==_of_ne n h ne) (ground (arith, count_used-update table h v n))
]

-- From every cell a free one is reached in less than `h_size` steps.
pub free_distance :
    (table : Table) (word : ℕ)
    → count_used table h_size < h_size
    → (k : ℕ) × (k < h_size) × (table (cell word k) ≡ 0)
free_distance table word h =
    let (z, lt, e) = free_cell table h_size h in
    let k = (z + h_size - word % h_size) % h_size in (k, omega arith, ap table (omega arith) ∙ e)

-- The cells on the way to the `k`-th are in use.
abbrev pub Used : Table → ℕ → ℕ → Type 0
Used table word k = (j : ℕ) → j < k → table (cell word j) ≢ 0

Used-suc :
    (table : Table) (word k : ℕ)
    → Used table word k
    → table (cell word k) ≢ 0
    → Used table word (suc k)
Used-suc table word k used ne j lt = elim (dec_lt j k) [
  | yes below ↦ used j below
  | no above ↦ let e : j ≡ k = omega arith in rw e ne
]

-- The search for a free cell stops at the first one.
abbrev pub FreeAt : Table → ℕ → ℕ → Type 0
FreeAt table word h = (k : ℕ) × (h ≡ cell word k) × (table h ≡ 0) × Used table word k

pub find_free-FreeAt :
    (fuel : ℕ) (table : Table) (word k z : ℕ)
    → table (cell word z) ≡ 0
    → z < k + fuel
    → Used table word k
    → Returns (FreeAt table word) (find_free fuel table (cell word k))
unfolding find_free
find_free-FreeAt zero table word k z free lt used = absurd (used z (omega arith) free)
find_free-FreeAt (suc fuel) table word k z free lt used =
    elim (ℕ_discrete (table (cell word k)) 0) [
      | yes e ↦ rw e (k, refl, e, used)
      | no ne ↦
          rw (==_of_ne (table (cell word k)) 0 ne, cell-suc word k)
            (find_free-FreeAt fuel table word (suc k) z free (omega arith)
              (Used-suc table word k used ne))
    ]
