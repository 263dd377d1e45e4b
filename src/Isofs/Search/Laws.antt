-- ===== src/Isofs/Search/Laws.antt =====
-- The search of a directory ends, and what it finds has the name.
use adr_bubble_booter_oss.Prelude.{
  ℕ, zero, suc, ◌+◌, ◌-◌, ◌*◌, ◌<◌, ◌≤◌, ◌≡◌, refl, arith, List, ℤ, pos, ◌+ℤ◌, is_neg, Bool, true,
  if◌then◌else◌, ltb, leb, ◌==◌, Option, none, some, ◌⊎◌, inl, inr, Bool-cases, Option-cases, ap,
}
use adr_bubble_booter_oss.Isofs.{Entry, Image, Errors, Run, done, fault, stuck, read_buffer}
use adr_bubble_booter_oss.Isofs.Ends.{Ends}
use adr_bubble_booter_oss.Isofs.Search.{
  Match, other, found, not_directory, too_long, unterminated, match_entry, Cursor, Found, failure,
  buffer_size, is_int, byte_of, left_of, entry_in, next_entry, step_over, is_exhausted, advance,
  find_loop, enough, find_in,
}

-- the errors are negative
pub record AllNegative (e : Errors) : Type 0 where
  pub enoent_neg : is_neg e.enoent ≡ true
  pub einval_neg : is_neg e.einval ≡ true
  pub enotdir_neg : is_neg e.enotdir ≡ true
  pub emfile_neg : is_neg e.emfile ≡ true
  pub eflag_neg : is_neg e.eflag ≡ true
  pub enametoolong_neg : is_neg e.enametoolong ≡ true

match_cases :
    (r : Match)
    → ((r ≡ other) ⊎ (r ≡ found)) ⊎ ((r ≡ not_directory) ⊎ ((r ≡ too_long) ⊎ (r ≡ unterminated)))
match_cases other = inl (inl refl)
match_cases found = inl (inr refl)
match_cases not_directory = inr (inl refl)
match_cases too_long = inr (inr (inl refl))
match_cases unterminated = inr (inr (inr refl))

module _ (m : Image) where
  -- what is known of the record that the cursor has come to
  abbrev Stands : Cursor → Run (Option (Cursor × Entry)) → Type 0
  Stands c fault = Unit
  Stands c stuck = ⊥
  Stands c (done none) = Unit
  Stands c (done (some (c', e))) =
      (c.at ≤ c'.at) × (c'.at ≤ buffer_size m) × (c'.remaining ≡ c.remaining) × (0 < e.len_dr)

  entry_in-le :
      (sectors : List ℕ) (at : ℕ) (e : Entry) → entry_in m sectors at ≡ some e → at ≤ buffer_size m
  unfolding entry_in
  entry_in-le sectors at e h = elim (Bool-cases (leb (at + m.entry_size) (buffer_size m))) [
    | inl b ↦ ground arith
    | inr b ↦ cc (rw b at h)
  ]

  next_entry-Stands : (sectors : List ℕ) (c : Cursor) → Stands c (next_entry m sectors c)
  unfolding next_entry
  next_entry-Stands sectors c =
      let left = left_of m.sector_size c.position in
      elim (Option-cases (entry_in m sectors c.at)) [
        | inl n ↦ rw (next_entry, n) tt
        | inr (e, q) ↦ elim (Bool-cases (e.len_dr == 0)) [
          | inr a ↦
              rw (next_entry, q, a) (omega arith, entry_in-le sectors c.at e q, refl, ground arith)
          | inl a ↦ elim (Bool-cases (ltb c.old_length left)) [
            | inl b ↦ rw (next_entry, q, a, b) tt
            | inr b ↦ elim (Bool-cases (is_int (c.position +ℤ pos left))) [
              | inr i ↦ rw (next_entry, q, a, b, i) tt
              | inl i ↦ elim (Option-cases (entry_in m sectors (c.at + left))) [
                | inl n ↦ rw (next_entry, q, a, b, i, n) tt
                | inr (e', q') ↦ elim (Bool-cases (e'.len_dr == 0)) [
                  | inl d ↦ rw (next_entry, q, a, b, i, q', d) tt
                  | inr d ↦
                      rw (next_entry, q, a, b, i, q', d)
                        (omega arith, entry_in-le sectors (c.at + left) e' q', refl, ground arith)
                ]
              ]
            ]
          ]
        ]
      ]

  -- the turns that are left at most
  abbrev measure : Cursor → ℕ
  measure c = c.remaining * suc (buffer_size m) + (suc (buffer_size m) - c.at)

  -- An answer: a record that matches and its start, or a negative result.
  abbrev pub IsAnswer : List ℕ → Bool → Found m.World → Type 0
  IsAnswer filename is_dir f = elim f.record_found [
    | none ↦ is_neg f.result ≡ true
    | some e ↦ (match_entry filename is_dir e ≡ found) × (f.result ≡ e.lsb_start)
  ]

  abbrev pub Answers : List ℕ → Bool → Run (Found m.World) → Type 0
  Answers filename is_dir r = Ends (IsAnswer filename is_dir) r

  next_cases :
      (r : Run (Option (Cursor × Entry)))
      → (r ≡ fault)
        ⊎ ((r ≡ stuck)
            ⊎ ((r ≡ done none) ⊎ ((c : Cursor) × (e : Entry) × (r ≡ done (some (c, e))))))
  next_cases fault = inl refl
  next_cases stuck = inr (inl refl)
  next_cases (done none) = inr (inr (inl refl))
  next_cases (done (some (c, e))) = inr (inr (inr (c, e, refl)))

  failure-Answers :
      (filename : List ℕ) (is_dir : Bool) (res : ℤ) (sectors : List ℕ) (w : m.World)
      → is_neg res ≡ true
      → Answers filename is_dir (done (failure res sectors w))
  failure-Answers filename is_dir res sectors w h = h

  measure-step_over :
      (c c' : Cursor) (e : Entry)
      → Stands c (done (some (c', e)))
      → measure (step_over m e c') < measure c
  measure-step_over c c' e (le, top, same, some_len) =
      let r : c'.remaining * suc (buffer_size m) ≡ c.remaining * suc (buffer_size m) =
        ap (λ k. k * suc (buffer_size m)) same in
      omega arith

  exhausted-pos : (c : Cursor) → is_exhausted m c ≡ true → 0 < c.remaining
  unfolding is_exhausted
  exhausted-pos c h = ground arith

  measure-advance :
      (c c' : Cursor) (e : Entry)
      → Stands c (done (some (c', e)))
      → 0 < c'.remaining
      → measure (advance m (step_over m e c')) < measure c
  unfolding advance
  measure-advance c c' e (le, top, same, some_len) h =
      let size = suc (buffer_size m) in
      let c₂ = advance m (step_over m e c') in
      let less : c₂.remaining + 1 ≤ c'.remaining = ground arith in
      let times : (c₂.remaining + 1) * size ≤ c'.remaining * size = grind arith in
      let r : c'.remaining * size ≡ c.remaining * size = ap (λ k. k * size) same in
      let spread : (c₂.remaining + 1) * size ≡ c₂.remaining * size + size = omega arith in
      omega arith

  module _ (neg : AllNegative m.errors) (filename : List ℕ) (is_dir : Bool) where
    pub find_loop-Answers :
        (fuel : ℕ) (sectors : List ℕ) (c : Cursor) (w : m.World)
        → measure c < fuel
        → Answers filename is_dir (find_loop m fuel filename is_dir sectors c w)
    unfolding find_loop
    find_loop-Answers zero sectors c w h = absurd (omega arith)
    find_loop-Answers (suc fuel) sectors c w h =
        let stands = next_entry-Stands sectors c in
        elim (next_cases (next_entry m sectors c)) [
          | inl q ↦ rw (find_loop, q) tt
          | inr (inl q) ↦ absurd (rw q at stands)
          | inr (inr (inl q)) ↦ rw (find_loop, q) neg.enoent_neg
          | inr (inr (inr (c', e, q))) ↦
              let st : Stands c (done (some (c', e))) = rw q at stands in
              elim (match_cases (match_entry filename is_dir e)) [
                | inl (inr a) ↦ rw (find_loop, q, a) (a, refl)
                | inr (inl a) ↦ rw (find_loop, q, a) neg.enotdir_neg
                | inr (inr (inl a)) ↦ rw (find_loop, q, a) neg.einval_neg
                | inr (inr (inr a)) ↦ rw (find_loop, q, a) tt
                | inl (inl a) ↦
                    let c₂ = step_over m e c' in
                    let r = read_buffer m (advance m c₂).lba 8 sectors w in
                    elim (Bool-cases (is_int c₂.position)) [
                      | inr i ↦ rw (find_loop, q, a, i) tt
                      | inl i ↦ elim (Bool-cases (is_exhausted m c₂)) [
                        | inr b ↦
                            rw (find_loop, q, a, i, b)
                              (find_loop-Answers fuel sectors c₂ w
                                (omega (arith, measure-step_over c c' e st)))
                        | inl b ↦ elim (Bool-cases (is_neg r.0)) [
                          | inl n ↦ rw (find_loop, q, a, i, b, n) n
                          | inr n ↦
                              rw (find_loop, q, a, i, b, n)
                                (find_loop-Answers fuel r.1 (advance m c₂) r.2
                                  (omega (arith, measure-advance c c' e st (exhausted-pos c₂ b))))
                        ]
                      ]
                    ]
              ]
        ]

    -- Whatever the image holds, where the errors are negative: the search of a directory of any number
    -- of sectors ends. It faults only by leaving the buffer or an unterminated name; a record that it
    -- returns matches the name, and its start is the result; and without a record the result is
    -- negative.
    pub find_in-Answers :
        (lba : ℤ) (n : ℕ) (sectors : List ℕ) (w : m.World)
        → Answers filename is_dir (find_in m filename lba n is_dir sectors w)
    unfolding find_in
    find_in-Answers lba n sectors w =
        let r = read_buffer m lba (if leb n 8 then n else 8) sectors w in
        elim (Bool-cases (is_int (byte_of m.sector_size lba))) [
          | inr i ↦ rw (find_in, i) tt
          | inl i ↦ elim (Bool-cases (is_neg r.0)) [
            | inl b ↦ rw (find_in, i, b) b
            | inr b ↦
                rw (find_in, i, b) (find_loop-Answers (enough m (n - 8)) r.1 _ r.2 (omega arith))
          ]
        ]
