-- ===== src/Isofs/Search/Ends.antt =====
-- The search of a path ends, as that of each folder does.
use adr_bubble_booter_oss.Prelude.{
  ℕ, zero, suc, ◌+◌, ◌<◌, ◌≡◌, refl, arith, List, [], ◌∷◌, ℤ, pos, negsuc, ltb_ℤ, is_neg, Bool,
  true, ltb, ◌==◌, length, Option, none, some, Bool-cases, Option-cases, ◌⊎◌, inl, inr,
}
use adr_bubble_booter_oss.Isofs.{Entry, Image}
use adr_bubble_booter_oss.Isofs.Ends.{Ends, bind-Ends, map-Ends}
use adr_bubble_booter_oss.Isofs.Search.{
  Found, signed_sectors, split_slash, Match, match_entry, find_in, find_file, next_level,
  find_path_loop, find_path,
}
use adr_bubble_booter_oss.Isofs.Search.Laws.{AllNegative, IsAnswer, find_in-Answers}

length-split_slash :
    (path rest : List ℕ) → (split_slash path).1 ≡ some rest → length rest < length path
unfolding split_slash
length-split_slash [] rest h = absurd (cc h)
length-split_slash (c ∷ path) rest h = elim (Bool-cases (c == b'/')) [
  | inl e ↦ let h' : some path ≡ some rest = rw e at h in grind arith
  | inr e ↦
      let h' : (split_slash path).1 ≡ some rest = rw e at h in
      omega (arith, length-split_slash path rest h')
]

sign_cases : (n : ℤ) → ((k : ℕ) × (n ≡ pos k)) ⊎ ((k : ℕ) × (n ≡ negsuc k))
sign_cases (pos k) = inl (k, refl)
sign_cases (negsuc k) = inr (k, refl)

module _ (m : Image) where
  -- Without a record, the result is negative.
  abbrev pub Settles : Found m.World → Type 0
  Settles f = elim f.record_found [ none ↦ is_neg f.result ≡ true | some e ↦ Unit ]

  forget_match :
      (filename : List ℕ) (is_dir : Bool) (o : Option Entry) (res : ℤ)
      → elim o as (λ _. Type 0) [
        | none ↦ is_neg res ≡ true
        | some e ↦ (match_entry filename is_dir e ≡ Match.found) × (res ≡ e.lsb_start)
      ]
      → elim o as (λ _. Type 0) [ none ↦ is_neg res ≡ true | some e ↦ Unit ]
  forget_match filename is_dir none res h = h
  forget_match filename is_dir (some e) res h = tt

  IsAnswer-Settles :
      (filename : List ℕ) (is_dir : Bool) (f : Found m.World)
      → IsAnswer m filename is_dir f
      → Settles f
  IsAnswer-Settles filename is_dir f h = forget_match filename is_dir f.record_found f.result h

  pub find_file-Settles :
      (filename : List ℕ) (lba size : ℤ) (is_dir : Bool) (sectors : List ℕ) (w : m.World)
      → AllNegative m.errors
      → Ends Settles (find_file m filename lba size is_dir sectors w)
  unfolding find_file
  find_file-Settles filename lba size is_dir sectors w neg =
      elim (sign_cases (signed_sectors m.sector_size size)) [
        | inl (n, e) ↦
            rw (find_file, e)
              (map-Ends Settles (find_in m filename lba n is_dir sectors w)
                (IsAnswer-Settles filename is_dir)
                (find_in-Answers m neg filename is_dir lba n sectors w))
        | inr (n, e) ↦ rw (find_file, e) tt
      ]

  find_path_loop-Settles :
      (fuel : ℕ) (path : List ℕ) (level lba : ℤ) (e : Entry) (sectors : List ℕ) (w : m.World)
      → AllNegative m.errors
      → length path < fuel
      → Ends Settles (find_path_loop m fuel path level lba e sectors w)
  unfolding find_path_loop
  find_path_loop-Settles zero path level lba e sectors w neg h = absurd (omega arith)
  find_path_loop-Settles (suc fuel) path level lba e sectors w neg h =
      elim (Option-cases (split_slash path).1) [
        | inl n ↦ rw (find_path_loop, n) tt
        | inr (rest, q) ↦ elim (Bool-cases (ltb 32 (length (split_slash path).0 + 1))) [
          | inl b ↦ rw (find_path_loop, q, b) neg.enametoolong_neg
          | inr b ↦ elim (Bool-cases (ltb_ℤ (pos 8) (next_level m (split_slash path).0 level))) [
            | inl c ↦ rw (find_path_loop, q, b, c) neg.einval_neg
            | inr c ↦
                let name = (split_slash path).0 in
                rw (find_path_loop, q, b, c)
                  (bind-Ends Settles (find_file m name lba e.lsb_data_length true sectors w) _
                    (find_file-Settles name lba e.lsb_data_length true sectors w neg)
                    (λ f st. elim (Option-cases f.record_found) [
                      | inl n ↦ rw n st
                      | inr (e', o) ↦ elim (Bool-cases (is_neg f.result)) [
                        | inl n ↦ rw (o, n) st
                        | inr n ↦
                            rw (o, n)
                              (find_path_loop-Settles fuel rest (next_level m name level) f.result
                                e' f.buffer f.world neg
                                (omega (arith, length-split_slash path rest q)))
                      ]
                    ]))
          ]
        ]
      ]

  pub find_path-Settles :
      (path : List ℕ) (e : Entry) (sectors : List ℕ) (w : m.World)
      → AllNegative m.errors
      → Ends Settles (find_path m path e sectors w)
  unfolding find_path
  find_path-Settles path e sectors w neg =
      find_path_loop-Settles (suc (length path)) path (pos 0) e.lsb_start e sectors w neg
        (omega arith)
