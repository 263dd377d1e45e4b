-- ===== src/Msfs/Folders/Listing.antt =====
-- A listing gives the entries that the filter takes, and ends.
use adr_bubble_booter_oss.Prelude.{
  ℕ, zero, suc, ◌<◌, ◌≡◌, refl, sym, subst, arith, List, [], ◌∷◌, ℤ, pos, is_neg, Bool, true, false,
  not, if◌then◌else◌, length, Option, none, some, Bool-cases, inl, inr,
}
use adr_bubble_booter_oss.Msfs.Filter.{directory_filter}
use adr_bubble_booter_oss.Msfs.Table.{Descriptor, Table, get_descriptor}
use adr_bubble_booter_oss.Msfs.Transfer.{Kernel}
use adr_bubble_booter_oss.Msfs.Folders.{
  Dirent, Host, convert_file_stat, next_dirent, is_filtered, dread_loop, put, dread,
}

-- whether a filter takes a name: an empty one takes every name
abbrev pub takes : List ℕ → List ℕ → Bool
takes [] name = true
takes (c ∷ filter) name = directory_filter name (c ∷ filter)

-- the first entry that a filter takes
abbrev pub first_taken : List ℕ → List Dirent → Option Dirent
first_taken filter [] = none
first_taken filter (e ∷ entries) =
    if takes filter e.name then some e else first_taken filter entries

module _ (k : Kernel) (h : Host k.World) where
  -- sceIoDread gives these entries one after the other, whatever the caller's record holds, and then 0
  abbrev pub Lists : ℤ → List Dirent → k.World → Type 0
  Lists fd [] w =
      (dir : Dirent) → (dir' : Dirent) × (w' : k.World) × (h.io_dread fd dir w ≡ (pos 0, dir', w'))
  Lists fd (e ∷ entries) w =
      (w' : k.World) × ((dir : Dirent) → h.io_dread fd dir w ≡ (pos 1, e, w')) × Lists fd entries w'

  is_filtered-takes :
      (d : Descriptor) (dir : Dirent) → is_filtered k h d dir ≡ not (takes d.filter dir.name)
  unfolding is_filtered
  is_filtered-takes d dir = split d.filter
    where
      split :
          (filter : List ℕ)
          → (elim filter as (λ _. Bool) [
            | [] ↦ false
            | (c ∷ rest) ↦ not (directory_filter dir.name filter)
          ])
            ≡ not (takes filter dir.name)
      split [] = refl
      split (c ∷ rest) = refl

  -- what a listing returns: the first entry taken and 1, or 0 at the end
  abbrev pub Returns : Option Dirent → (ℤ → Dirent → k.World → Type 0) → Type 0
  Returns none P = (dir : Dirent) × (w : k.World) × P (pos 0) dir w
  Returns (some e) P = (w : k.World) × P (pos 1) e w

  dread_loop-first_taken :
      (entries : List Dirent) (fuel : ℕ) (d : Descriptor) (dir : Dirent) (w : k.World)
      → is_neg d.extra ≡ true
      → Lists d.fd entries w
      → length entries < fuel
      → Returns
          (first_taken d.filter entries)
          (λ res dir' w'. dread_loop k h fuel d dir w ≡ some (res, d, dir', w'))
  unfolding dread_loop next_dirent
  dread_loop-first_taken [] (suc fuel) d dir w listed lists lt =
      let (dir', w', e) = lists dir in (dir', w', rw (dread_loop, listed, e) refl)
  dread_loop-first_taken entries zero d dir w listed lists lt = absurd (omega arith)
  dread_loop-first_taken (x ∷ entries) (suc fuel) d dir w listed (w', e, lists) lt =
      let f = is_filtered-takes d x in
      let q : next_dirent k h d dir w ≡ (pos 1, d, x, w') = rw (next_dirent, listed, e dir) refl in
      elim (Bool-cases (takes d.filter x.name)) [
        | inl a ↦ rw a (w', rw (dread_loop, q, f, a) refl)
        | inr a ↦
            let step : dread_loop k h (suc fuel) d dir w ≡ dread_loop k h fuel d x w' =
              rw (dread_loop, q, f, a) refl in
            let rest = dread_loop-first_taken entries fuel d x w' listed lists (omega arith) in
            rw a (
              subst
                (λ r.
                  Returns (first_taken d.filter entries)
                    (λ res dir' w''. r ≡ some (res, d, dir', w'')))
                (sym step) rest)
      ]

  -- Where the folder's calls give some entries and then 0: ScePspemuMsfsDread of a handle whose `.` and
  -- `..` have been given, with a turn for each entry and one more, returns 1 and the first entry that
  -- the handle's filter takes, with its stat converted, or 0 when there is none.
  pub dread-first_taken :
      (entries : List Dirent) (fuel : ℕ) (fd : ℤ) (d : Descriptor) (t : Table) (dir : Dirent)
      (w : k.World)
      → get_descriptor fd t ≡ some d
      → is_neg d.extra ≡ true
      → Lists d.fd entries w
      → length entries < fuel
      → Returns (first_taken d.filter entries) (λ res dir' w'.
        dread k h fuel fd dir t w
        ≡ some (res, record dir' { stat = convert_file_stat h dir'.stat }, put k h fd d t, w'))
  unfolding dread
  dread-first_taken entries fuel fd d t dir w held listed lists lt =
      lift (first_taken d.filter entries)
        (dread_loop-first_taken entries fuel d dir w listed lists lt)
    where
      lift :
          (o : Option Dirent)
          → Returns o (λ res dir' w'. dread_loop k h fuel d dir w ≡ some (res, d, dir', w'))
          → Returns o (λ res dir' w'.
            dread k h fuel fd dir t w
            ≡ some (res, record dir' { stat = convert_file_stat h dir'.stat }, put k h fd d t, w'))
      lift none (dir', w', e) = (dir', w', rw (dread, held, e) refl)
      lift (some x) (w', e) = (w', rw (dread, held, e) refl)
