-- ===== src/Util/Hash/Stored.antt =====
-- What the table built by `generate_hash` holds: every word of the query, in any capitalization that
-- counts, leads to its place, and to no smaller place before.
use libag.Common.{
  ℕ, zero, suc, ◌+◌, ◌*◌, ◌%◌, ◌≤◌, ◌<◌, ◌≡◌, ◌≢◌, sym, ap, ◌∙◌, Bool, List, [], ◌∷◌, All, length,
  ==_self, ==_of_ne, ℕ_discrete, dec_lt, Returns, Returns->>=, Returns-map, subst, All-map, arith,
}
use libag.Util.Hash.{
  Table, h_size, update, find_free, insert_word, caps_word, caps_sets, hash_caps, hash_from,
}
use libag.Util.Hash.Table.{
  cell, count_used, count_used-update, free_distance, FreeAt, find_free-FreeAt,
}

-- On the way from the cell of a word, `v` comes before every value below it.
abbrev pub Stored : Table → ℕ → ℕ → Type 0
Stored table word v =
    (k : ℕ) × (table (cell word k) ≡ v) × ((j : ℕ) → j < k → v ≤ table (cell word j))

abbrev pub Between : Table → ℕ → ℕ → Type 0
Between table lo top = (h : ℕ) → table h ≢ 0 → (lo ≤ table h) × (table h ≤ top)

abbrev pub Keeps : Table → Table → Type 0
Keeps table table' = (word v : ℕ) → 0 < v → Stored table word v → Stored table' word v

update_same : (table : Table) (h v : ℕ) → update table h v h ≡ v
update_same table h v = rw (==_self h)

update_other : (table : Table) (h v j : ℕ) → j ≢ h → update table h v j ≡ table j
update_other table h v j ne = rw (==_of_ne j h ne)

-- A store into a free cell moves nothing that is there.
update-Keeps : (table : Table) (h v : ℕ) → table h ≡ 0 → Keeps table (update table h v)
update-Keeps table h v free word w pos (k, at, before) = (
  k,
  update_other table h v (cell word k) (λ e. omega (arith, ap table e)) ∙ at,
  λ j lt.
      rw (update_other table h v (cell word j) (λ e. omega (arith, before j lt, ap table e)))
        (before j lt),
)

update-Between :
    (table : Table) (h v top : ℕ) → v ≤ top → Between table v top → Between (update table h v) v top
update-Between table h v top le b j = elim (ℕ_discrete j h) [
  | yes e ↦ rw (e, ==_self h) (λ _. (omega arith, le))
  | no ne ↦ rw (==_of_ne j h ne) (b j)
]

-- The new value stands behind cells in use, which hold no less.
update-Stored :
    (table : Table) (word h v top : ℕ)
    → Between table v top
    → FreeAt table word h
    → Stored (update table h v) word v
update-Stored table word h v top b (k, at, free, used) = (
  k,
  ap (update table h v) (sym at) ∙ update_same table h v,
  λ j lt.
      rw (update_other table h v (cell word j) (λ e. used j lt (ap table e ∙ free)))
        (b (cell word j) (used j lt)).0,
)

module _ (fuel : ℕ) (enough : h_size ≤ fuel) (word i top : ℕ) (small : suc i ≤ top)
    (byte : top < 256) where
  -- One store: the word leads to its value, and nothing is lost.
  abbrev Added : Table → Table → Type 0
  Added table table' =
      Stored table' word (suc i)
      × Keeps table table'
      × Between table' (suc i) top
      × (count_used table' h_size ≤ suc (count_used table h_size))

  store-Added :
      (table : Table) (h v : ℕ)
      → v ≡ suc i
      → Between table (suc i) top
      → FreeAt table word h
      → Added table (update table h v)
  store-Added table h v e b free = rw e (
    update-Stored table word h (suc i) top b free,
    update-Keeps table h (suc i) free.2,
    update-Between table h (suc i) top small b,
    count_used-update table h (suc i) h_size,
  )

  insert_word-Added :
      (table : Table)
      → Between table (suc i) top
      → count_used table h_size < h_size
      → Returns (Added table) (insert_word fuel table word i)
  unfolding insert_word
  insert_word-Added table b room =
      Returns->>= (FreeAt table word) (Added table) (find_free fuel table (word % h_size)) _ found
        (λ h free. store-Added table h ((i + 1) % 256) (omega arith) b free)
    where
      start : cell word 0 ≡ word % h_size
      start = omega arith

      found : Returns (FreeAt table word) (find_free fuel table (word % h_size))
      found =
          let (z, lt, free) = free_distance table word room in
          subst (λ (h : ℕ). Returns (FreeAt table word) (find_free fuel table h)) start
            (find_free-FreeAt fuel table word 0 z free (omega arith)
              (λ j none. absurd (omega arith)))

-- The stores for one place.
module _ (fuel : ℕ) (enough : h_size ≤ fuel) (find : List ℕ) (i top : ℕ) (small : suc i ≤ top)
    (byte : top < 256) where
  abbrev AllAdded : List ℕ → Table → Table → Type 0
  AllAdded caps table table' =
      All (λ c. Stored table' (caps_word find i c) (suc i)) caps
      × Keeps table table'
      × Between table' (suc i) top
      × (count_used table' h_size ≤ count_used table h_size + length caps)

  hash_caps-AllAdded :
      (caps : List ℕ) (table : Table)
      → Between table (suc i) top
      → count_used table h_size + length caps ≤ h_size
      → Returns (AllAdded caps table) (hash_caps fuel find i caps table)
  unfolding hash_caps
  hash_caps-AllAdded [] table b room = (tt, (λ w v pos s. s), b, omega arith)
  hash_caps-AllAdded (c ∷ caps) table b room =
      Returns->>= (Added fuel enough word i top small byte table) (AllAdded (c ∷ caps) table) _ _
        (insert_word-Added fuel enough word i top small byte table b (omega arith))
        (λ mid one.
          Returns-map (AllAdded caps mid) (AllAdded (c ∷ caps) table) _
            (λ last rest. (
              (rest.1 word (suc i) (omega arith) one.0, rest.0),
              (λ w v pos s. rest.1 w v pos (one.1 w v pos s)),
              rest.2,
              omega arith,
            ))
            (hash_caps-AllAdded caps mid one.2 (omega arith)))
    where
      word : ℕ
      word = caps_word find i c

abbrev pub Holds : List ℕ → Bool → ℕ → Table → Type 0
Holds find cs n table =
    (i : ℕ) → i < n → All (λ c. Stored table (caps_word find i c) (suc i)) (caps_sets cs)

-- All places below `n`, where the values in use are above `n`.
module _ (fuel : ℕ) (enough : h_size ≤ fuel) (find : List ℕ) (cs : Bool) (top : ℕ)
    (byte : top < 256) where
  abbrev pub Built : ℕ → Table → Table → Type 0
  Built n table table' =
      Holds find cs n table'
      × Keeps table table'
      × Between table' 0 top
      × (count_used table' h_size ≤ count_used table h_size + 4 * n)

  length-caps_sets : length (caps_sets cs) ≤ 4
  length-caps_sets = ground arith

  pub hash_from-Built :
      (n : ℕ) (table : Table)
      → n ≤ top
      → Between table n top
      → count_used table h_size + 4 * n ≤ h_size
      → Returns (Built n table) (hash_from fuel find cs n table)
  unfolding hash_from
  hash_from-Built zero table le b room =
      ((λ i lt. absurd (omega arith)), (λ w v pos s. s), b, omega arith)
  hash_from-Built (suc i) table le b room =
      Returns->>= (AllAdded fuel enough find i top le byte (caps_sets cs) table)
        (Built (suc i) table) _ _
        (hash_caps-AllAdded fuel enough find i top le byte (caps_sets cs) table b
          (omega (arith, length-caps_sets)))
        (λ mid one.
          Returns-map (Built i mid) (Built (suc i) table) _
            (λ last rest. (
              (λ j lt. elim (dec_lt j i) [
                | yes below ↦ rest.0 j below
                | no above ↦
                    let e : j ≡ i = omega arith in
                    rw e
                      (All-map _ _ (caps_sets cs) (λ c s. rest.1 _ (suc i) (omega arith) s) one.0)
              ]),
              (λ w v pos s. rest.1 w v pos (one.1 w v pos s)),
              rest.2,
              omega (arith, length-caps_sets),
            ))
            (hash_from-Built i mid (omega arith)
              (λ h ne. ((omega (arith, one.2 h ne)), (one.2 h ne).1))
              (omega (arith, length-caps_sets))))
