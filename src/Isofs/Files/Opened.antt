-- ===== src/Isofs/Files/Opened.antt =====
-- isofs_open returns, and gives a free handle or an error.
use adr_bubble_booter_oss.Prelude.{
  ℕ, ◌+◌, ◌≡◌, refl, List, ℤ, is_neg, true, ltb, leb, length, drop, take, Option, none, some,
  Bool-cases, Option-cases, inl, inr, subst, ◌-◌, if◌then◌else◌,
}
use adr_bubble_booter_oss.Text.{codes}
use adr_bubble_booter_oss.Isofs.{Entry, Image, Driver, Run, done}
use adr_bubble_booter_oss.Isofs.Ends.{Ends, bind-Ends}
use adr_bubble_booter_oss.Isofs.Names.{strip_slash}
use adr_bubble_booter_oss.Isofs.Search.{same_text}
use adr_bubble_booter_oss.Isofs.Search.Laws.{AllNegative}
use adr_bubble_booter_oss.Isofs.Files.{
  strstr, assign, locate, open_named, open_sectors, open_stripped, isofs_open, Reply,
}
use adr_bubble_booter_oss.Isofs.Files.Table.{Opens, assign-Opens, locate-Located}

module _ (m : Image) (neg : AllNegative m.errors) where
  open_named-Opens :
      (fullpath : List ℕ) (d : Driver) (w : m.World)
      → Ends (Opens m d.handlers) (open_named m fullpath d w)
  unfolding open_named
  open_named-Opens fullpath d w =
      bind-Ends (Opens m d.handlers) (locate m fullpath d w) _ (locate-Located m neg fullpath d w)
        λ (lba, e, d', w') (same, st). turn lba e d' w' same st
    where
      turn :
          (lba : ℤ) (e : Option Entry) (d' : Driver) (w' : m.World)
          → d'.handlers ≡ d.handlers
          → elim e as (λ _. Type 0) [ none ↦ is_neg lba ≡ true | some e ↦ Unit ]
          → Ends (Opens m d.handlers) (elim e as (λ _. Run (Reply m)) [
            | none ↦ done (lba, d', w')
            | some e ↦
                if is_neg lba
                then done (lba, d', w')
                else done (assign m lba e.lsb_data_length d' w')
          ])
      turn lba none d' w' same st = inl (st, same)
      turn lba (some e) d' w' same st = elim (Bool-cases (is_neg lba)) [
        | inl b ↦ rw b (inl (b, same))
        | inr b ↦ rw b (
            subst (λ hs. Opens m hs (assign m lba e.lsb_data_length d' w')) same
              (assign-Opens m neg lba e.lsb_data_length d' w'))
      ]

  open_sectors-Opens :
      (fullpath : List ℕ) (d : Driver) (w : m.World)
      → Opens m d.handlers (open_sectors m fullpath d w)
  unfolding open_sectors
  open_sectors-Opens fullpath d w = elim (Option-cases (strstr fullpath (codes "_size"))) [
    | inl n ↦ rw (open_sectors, n) (inl (neg.einval_neg, refl))
    | inr (p, q) ↦
        let start = take (length fullpath - length p - 8) (drop 8 fullpath) in
        let size = drop 5 p in
        elim (Bool-cases (ltb 10 (length start))) [
          | inl a ↦ rw (open_sectors, q, a) (inl (neg.enametoolong_neg, refl))
          | inr a ↦ elim (Bool-cases (is_neg (m.strtol start))) [
            | inl b ↦ rw (open_sectors, q, a, b) (inl (neg.einval_neg, refl))
            | inr b ↦ elim (Bool-cases (ltb 10 (length size))) [
              | inl c ↦ rw (open_sectors, q, a, b, c) (inl (neg.enametoolong_neg, refl))
              | inr c ↦ elim (Bool-cases (is_neg (m.strtol size))) [
                | inl e ↦ rw (open_sectors, q, a, b, c, e) (inl (neg.einval_neg, refl))
                | inr e ↦
                    rw (open_sectors, q, a, b, c, e)
                      (assign-Opens m neg (m.strtol start) (m.strtol size) d w)
              ]
            ]
          ]
        ]
  ]

  open_stripped-Opens :
      (fullpath : List ℕ) (flags : ℕ) (d : Driver) (w : m.World)
      → Ends (Opens m d.handlers) (open_stripped m fullpath flags d w)
  unfolding open_stripped
  open_stripped-Opens fullpath flags d w = elim (Bool-cases (ltb 256 (length fullpath + 1))) [
    | inl a ↦ rw (open_stripped, a) (inl (neg.enametoolong_neg, refl))
    | inr a ↦ elim (Bool-cases (m.is_not_allowed flags)) [
      | inl b ↦ rw (open_stripped, a, b) (inl (neg.eflag_neg, refl))
      | inr b ↦ elim (Bool-cases (same_text (take 8 fullpath) (codes "/sce_lbn"))) [
        | inl c ↦ rw (open_stripped, a, b, c) (open_sectors-Opens fullpath d w)
        | inr c ↦ rw (open_stripped, a, b, c) (open_named-Opens fullpath d w)
      ]
    ]
  ]

  -- Whatever the image holds and the file and the flags are, where the errors are negative: isofs_open
  -- ends, unless C leaves it undefined, either with a negative result and the handles as they were, or
  -- with the index, at least 1, of a handle of the table that was not open, and then only that handle
  -- changes, to an open file at its start.
  pub isofs_open-Opens :
      (file : Option (List ℕ)) (flags : ℕ) (d : Driver) (w : m.World)
      → Ends (Opens m d.handlers) (isofs_open m file flags d w)
  unfolding isofs_open
  isofs_open-Opens none flags d w = inl (neg.einval_neg, refl)
  isofs_open-Opens (some file) flags d w = elim (Bool-cases (same_text file (codes "/"))) [
    | inl a ↦
        rw (isofs_open, a)
          (assign-Opens m neg d.main_record.lsb_start d.main_record.lsb_data_length d w)
    | inr a ↦ elim (Bool-cases (leb 256 (length file))) [
      | inl b ↦ rw (isofs_open, a, b) tt
      | inr b ↦ elim (Option-cases (strip_slash file)) [
        | inl n ↦ rw (isofs_open, a, b, n) tt
        | inr (s, q) ↦ rw (isofs_open, a, b, q) (open_stripped-Opens s flags d w)
      ]
    ]
  ]
