-- ===== src/Isofs/Files/Table.antt =====
-- The handle table of the ISO driver: the handle that a file gets, and the lookup that leaves the table.
use adr_bubble_booter_oss.Prelude.{
  ℕ, suc, ◌-◌, ◌<◌, ◌≤◌, ◌≡◌, refl, arith, List, [], ◌∷◌, ℤ, pos, is_neg, true, false, length, drop,
  get_or, set, Option, none, some, Bool-cases, Option-cases, ◌⊎◌, inl, inr, length-drop,
}
use adr_bubble_booter_oss.Isofs.{Entry, Handle, no_handle, Image, Driver, Run, done, ◌>>=◌, need}
use adr_bubble_booter_oss.Isofs.Ends.{Ends, bind-Ends}
use adr_bubble_booter_oss.Isofs.Names.{Parts, too_long, parts, strip_slash, get_path_and_name}
use adr_bubble_booter_oss.Isofs.Search.Laws.{AllNegative}
use adr_bubble_booter_oss.Isofs.Search.Ends.{Settles, find_file-Settles, find_path-Settles}
use adr_bubble_booter_oss.Isofs.Files.{
  free_from, get_free_handle, opened_handle, assign, find_folder, find_record, locate, Reply,
}

free_from-lem :
    (i : ℕ) (handlers : List Handle) (j : ℕ)
    → free_from i handlers ≡ some j
    → (i ≤ j) × (j - i < length handlers) × ((get_or handlers (j - i) no_handle).opened ≡ false)
unfolding free_from
free_from-lem i [] j h = absurd (cc h)
free_from-lem i (x ∷ handlers) j h = elim (Bool-cases x.opened) [
  | inl e ↦
      let h' : free_from (suc i) handlers ≡ some j = rw e at h in
      let (le, lt, free) = free_from-lem (suc i) handlers j h' in
      let s : j - i ≡ suc (j - suc i) = omega arith in (omega arith, omega arith, rw s free)
  | inr e ↦
      let h' : some i ≡ some j = rw e at h in
      let s : j - i ≡ 0 = grind arith in (grind arith, omega arith, rw s e)
]

get_or-drop_one :
    (handlers : List Handle) (i : ℕ)
    → get_or (drop 1 handlers) i no_handle ≡ get_or handlers (suc i) no_handle
get_or-drop_one [] i = refl
get_or-drop_one (x ∷ handlers) i = refl

-- The handle is one of the table behind the first, and free.
get_free_handle-lem :
    (handlers : List Handle) (i : ℕ)
    → get_free_handle handlers ≡ some i
    → (1 ≤ i) × (i < length handlers) × ((get_or handlers i no_handle).opened ≡ false)
unfolding get_free_handle
get_free_handle-lem handlers i h =
    let (le, lt, free) = free_from-lem 1 (drop 1 handlers) i h in
    let s : i ≡ suc (i - 1) = omega arith in
    let n : length (drop 1 handlers) ≡ length handlers - 1 = length-drop 1 handlers in
    (le, omega arith, rw (s, ← get_or-drop_one handlers (i - 1)) free)

get_path_and_name-Ends : (fullpath : List ℕ) → Ends (λ _. Unit) (get_path_and_name fullpath)
unfolding get_path_and_name
get_path_and_name-Ends fullpath = elim (Option-cases (strip_slash fullpath)) [
  | inl n ↦ rw (get_path_and_name, n) tt
  | inr (s, e) ↦ rw (get_path_and_name, e) tt
]

module _ (m : Image) where
  -- an error that leaves the handles, or a handle behind the first that was free and has a new file
  abbrev pub Opens : List Handle → Reply m → Type 0
  Opens handlers (res, d, w) =
      ((is_neg res ≡ true) × (d.handlers ≡ handlers))
      ⊎ ((i : ℕ) × (lba : ℤ) × (size : ℤ) × (res ≡ pos i)
          × (1 ≤ i)
          × (i < length handlers)
          × ((get_or handlers i no_handle).opened ≡ false)
          × (d.handlers ≡ set handlers i (opened_handle lba size)))

  module _ (neg : AllNegative m.errors) where
    pub assign-Opens :
        (lba size : ℤ) (d : Driver) (w : m.World) → Opens d.handlers (assign m lba size d w)
    unfolding assign
    assign-Opens lba size d w = elim (Option-cases (get_free_handle d.handlers)) [
      | inl n ↦ rw (assign, n) (inl (neg.emfile_neg, refl))
      | inr (i, e) ↦
          let (le, lt, free) = get_free_handle-lem d.handlers i e in
          rw (assign, e) (inr (i, lba, size, refl, le, lt, free, refl))
    ]

    find_folder-Settles :
        (path : List ℕ) (e : Entry) (sectors : List ℕ) (w : m.World)
        → Ends (Settles m) (find_folder m path e sectors w)
    unfolding find_folder
    find_folder-Settles [] e sectors w = tt
    find_folder-Settles (c ∷ path) e sectors w = find_path-Settles m (c ∷ path) e sectors w neg

    find_record-Settles :
        (path filename : List ℕ) (e : Entry) (sectors : List ℕ) (w : m.World)
        → Ends (Settles m) (find_record m path filename e sectors w)
    unfolding find_record
    find_record-Settles path filename e sectors w =
        bind-Ends (Settles m) (find_folder m path e sectors w) _
          (find_folder-Settles path e sectors w)
          λ f st. elim (Option-cases f.record_found) [
            | inl n ↦ rw n st
            | inr (e', o) ↦ elim (Bool-cases (is_neg f.result)) [
              | inl b ↦ rw (o, b) st
              | inr b ↦
                  rw (o, b)
                    (find_file-Settles m filename f.result e'.lsb_data_length false f.buffer f.world
                      neg)
            ]
          ]

    -- A lookup leaves the handles, and has a negative result without a record.
    abbrev pub Located : List Handle → ℤ × Option Entry × Driver × m.World → Type 0
    Located handlers (lba, e, d, w) =
        (d.handlers ≡ handlers)
        × (elim e as (λ _. Type 0) [ none ↦ is_neg lba ≡ true | some e ↦ Unit ])

    pub locate-Located :
        (fullpath : List ℕ) (d : Driver) (w : m.World)
        → Ends (Located d.handlers) (locate m fullpath d w)
    unfolding locate
    locate-Located fullpath d w =
        bind-Ends (Located d.handlers) (get_path_and_name fullpath) _
          (get_path_and_name-Ends fullpath) (λ p u. turn p)
      where
        look_up :
            (path filename : List ℕ) (o : Option (List ℕ))
            → Ends (Located d.handlers) (
                need o >>= λ s. find_record m path filename d.main_record s w >>= λ f.
                done (f.result, f.record_found, record d { sectors = some f.buffer }, f.world))
        look_up path filename none = tt
        look_up path filename (some s) =
            bind-Ends (Located d.handlers) (find_record m path filename d.main_record s w) _
              (find_record-Settles path filename d.main_record s w) (λ f st. (refl, st))

        turn :
            (p : Parts)
            → Ends
                (Located d.handlers)
                (elim p as (λ _. Run (ℤ × Option Entry × Driver × m.World)) [
                  | too_long ↦ done (m.errors.enametoolong, none, d, w)
                  | parts path filename ↦ need d.sectors >>= λ s.
                      find_record m path filename d.main_record s w >>= λ f.
                      done (f.result, f.record_found, record d { sectors = some f.buffer }, f.world)
                ])
        turn too_long = (refl, neg.enametoolong_neg)
        turn (parts path filename) = look_up path filename d.sectors
