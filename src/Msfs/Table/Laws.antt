-- ===== src/Msfs/Table/Laws.antt =====
-- What the descriptor table keeps: an open does not touch an open handle, and a close gives the place
-- back.
use adr_bubble_booter_oss.Prelude.{
  ℕ, zero, suc, ◌<◌, ◌≤◌, ◌≡◌, ◌≢◌, refl, arith, List, [], ◌∷◌, ℤ, pos, negsuc, eqb_ℤ, ltb, Bool,
  true, false, some, ◌==◌, length, get_or, set, length-set, get_or-set_self, get_or-set_ne,
  Bool-cases, inl, inr, ◌⊎◌, ap, sym, subst,
}
use adr_bubble_booter_oss.Msfs.Table.{
  Descriptor, empty, Table, describe, find_free, add_descriptor, get_descriptor, remove_descriptor,
}

abbrev pub IsFree : Descriptor → Type 0
IsFree d = d.fd ≡ pos 0

-- every free place is cleared, so that nothing of a closed descriptor is left
abbrev pub IsValid : Table → Type 0
IsValid [] = Unit
IsValid (d ∷ t) = (IsFree d → d ≡ empty) × IsValid t

abbrev pub Full : Table → Type 0
Full [] = Unit
Full (d ∷ t) = (d.fd ≢ pos 0) × Full t

eqb_ℤ_zero : (a : ℤ) → eqb_ℤ a (pos 0) ≡ true → a ≡ pos 0
eqb_ℤ_zero (pos n) e = ap pos (ground arith)
eqb_ℤ_zero (negsuc n) e = cc

zero_eqb_ℤ : (a : ℤ) → eqb_ℤ a (pos 0) ≡ false → a ≢ pos 0
zero_eqb_ℤ a e q = cc (e, ap (λ k. eqb_ℤ k (pos 0)) q)

find_free-IsFree : (t : Table) → find_free t < length t → IsFree (get_or t (find_free t) empty)
unfolding find_free
find_free-IsFree [] h = absurd (omega arith)
find_free-IsFree (d ∷ t) h = elim (Bool-cases (eqb_ℤ d.fd (pos 0))) [
  | inl z ↦ rw z (eqb_ℤ_zero d.fd z)
  | inr z ↦ rw z (find_free-IsFree t (ground arith))
]

find_free-Full : (t : Table) → find_free t ≡ length t → Full t
unfolding find_free
find_free-Full [] e = tt
find_free-Full (d ∷ t) e = elim (Bool-cases (eqb_ℤ d.fd (pos 0))) [
  | inl z ↦ absurd (ground arith)
  | inr z ↦ (zero_eqb_ℤ d.fd z, find_free-Full t (ground arith))
]

pub find_free_le : (t : Table) → find_free t ≤ length t
unfolding find_free
find_free_le [] = omega arith
find_free_le (d ∷ t) = ground (arith, find_free_le t)

get_or-IsValid :
    (t : Table) (i : ℕ) → IsValid t → IsFree (get_or t i empty) → get_or t i empty ≡ empty
get_or-IsValid [] i v e = refl
get_or-IsValid (d ∷ t) zero v e = v.0 e
get_or-IsValid (d ∷ t) (suc i) v e = get_or-IsValid t i v.1 e

set-IsValid :
    (t : Table) (i : ℕ) (d : Descriptor) → IsValid t → (IsFree d → d ≡ empty) → IsValid (set t i d)
set-IsValid [] i d v h = tt
set-IsValid (e ∷ t) zero d v h = (h, v.1)
set-IsValid (e ∷ t) (suc i) d v h = (v.0, set-IsValid t i d v.1 h)

set-set : (t : Table) (i : ℕ) (d : Descriptor) → set (set t i d) i (get_or t i empty) ≡ t
set-set [] i d = refl
set-set (e ∷ t) zero d = refl
set-set (e ∷ t) (suc i) d = ap (λ k. e ∷ k) (set-set t i d)

-- Adding a descriptor with a nonzero fd either fails with -1, on a table without a free place, and
-- leaves the table as it was; or it gives a handle that had no open descriptor and now has the new one,
-- and leaves every other handle's descriptor, the table's length and its validity as they were.
pub add_descriptor_lem :
    (fd : ℤ) (path : List ℕ) (flags : ℕ) (trunc folder : Bool) (t : Table)
    → fd ≢ pos 0
    → IsValid t
    → let r = add_descriptor fd path flags trunc folder t in
      (Full t × (r ≡ (negsuc 0, t)))
      ⊎ ((i : ℕ) × (r.0 ≡ pos i)
          × IsFree (get_or t i empty)
          × (get_descriptor (pos i) r.1 ≡ some (describe fd path flags trunc folder))
          × ((j : ℕ) → j ≢ i → get_descriptor (pos j) r.1 ≡ get_descriptor (pos j) t)
          × (length r.1 ≡ length t)
          × IsValid r.1)
unfolding add_descriptor get_descriptor describe
add_descriptor_lem fd path flags trunc folder t nz v =
    let i = find_free t in
    let d = describe fd path flags trunc folder in
    let len : length (set t i d) ≡ length t = length-set t i d in
    elim (Bool-cases (i == length t)) [
      | inl e ↦ inl (find_free-Full t (ground arith), rw (add_descriptor, e) refl)
      | inr e ↦
          let lt : i < length t = ground (arith, find_free_le t) in
          let l : ltb i (length (set t i d)) ≡ true = ground (arith, len) in
          inr (
            i,
            rw (add_descriptor, e) refl,
            find_free-IsFree t lt,
            rw (add_descriptor, e, get_descriptor, l) (ap some (get_or-set_self t i d empty lt)),
            (λ j ne.
                rw
                  (
                    add_descriptor,
                    e,
                    get_descriptor,
                    len,
                    get_or-set_ne t i j d empty (λ q. ne (sym q)),
                  )
                  refl),
            rw (add_descriptor, e) len,
            rw (add_descriptor, e) (set-IsValid t i d v (λ q. absurd (nz q))),
          )
    ]

-- When adding a descriptor to a valid table gives a handle, removing that handle succeeds and restores
-- the table.
pub remove_descriptor-add_descriptor :
    (fd : ℤ) (path : List ℕ) (flags : ℕ) (trunc folder : Bool) (t : Table) (i : ℕ) (t' : Table)
    → IsValid t
    → add_descriptor fd path flags trunc folder t ≡ (pos i, t')
    → remove_descriptor (pos i) t' ≡ (pos 0, t)
unfolding add_descriptor remove_descriptor
remove_descriptor-add_descriptor fd path flags trunc folder t i t' v q =
    let k = find_free t in
    let d = describe fd path flags trunc folder in
    elim (Bool-cases (k == length t)) [
      | inl e ↦ absurd (cc (rw (add_descriptor, e) at q))
      | inr e ↦
          let r : (pos k, set t k d) ≡ (pos i, t') = rw (add_descriptor, e) at q in
          let lt : k < length t = ground (arith, find_free_le t) in
          let l : ltb k (length (set t k d)) ≡ true = ground (arith, length-set t k d) in
          let z : get_or t k empty ≡ empty = get_or-IsValid t k v (find_free-IsFree t lt) in
          let done : remove_descriptor (pos k) (set t k d) ≡ (pos 0, t) =
            rw (remove_descriptor, l, sym z) (ap (λ s. (pos 0, s)) (set-set t k d)) in
          subst (λ s. remove_descriptor s.0 s.1 ≡ (pos 0, t)) r done
    ]

pub get_descriptor-set_ne :
    (t : Table) (i j : ℕ) (d : Descriptor)
    → j ≢ i
    → get_descriptor (pos j) (set t i d) ≡ get_descriptor (pos j) t
unfolding get_descriptor
get_descriptor-set_ne t i j d ne =
    rw (get_descriptor, length-set t i d, get_or-set_ne t i j d empty (λ q. ne (sym q))) refl

pub get_descriptor-set_self :
    (t : Table) (i : ℕ) (d d' : Descriptor)
    → get_descriptor (pos i) t ≡ some d
    → get_descriptor (pos i) (set t i d') ≡ some d'
unfolding get_descriptor
get_descriptor-set_self t i d d' h = elim (Bool-cases (ltb i (length t))) [
  | inl e ↦
      rw (get_descriptor, length-set t i d', e)
        (ap some (get_or-set_self t i d' empty (ground arith)))
  | inr e ↦ absurd (cc (rw e at h))
]

-- the descriptor behind a handle that adding one gave
pub get_descriptor-add_descriptor :
    (fd : ℤ) (path : List ℕ) (flags : ℕ) (trunc folder : Bool) (t : Table) (i : ℕ) (t' : Table)
    → add_descriptor fd path flags trunc folder t ≡ (pos i, t')
    → get_descriptor (pos i) t' ≡ some (describe fd path flags trunc folder)
unfolding add_descriptor get_descriptor
get_descriptor-add_descriptor fd path flags trunc folder t i t' q =
    let k = find_free t in
    let d = describe fd path flags trunc folder in
    elim (Bool-cases (k == length t)) [
      | inl e ↦ absurd (cc (rw (add_descriptor, e) at q))
      | inr e ↦
          let lt : k < length t = ground (arith, find_free_le t) in
          let l : ltb k (length (set t k d)) ≡ true = ground (arith, length-set t k d) in
          let done : get_descriptor (pos k) (set t k d) ≡ some d =
            rw (get_descriptor, l) (ap some (get_or-set_self t k d empty lt)) in
          let r : (pos k, set t k d) ≡ (pos i, t') = rw (add_descriptor, e) at q in
          subst (λ s. get_descriptor s.0 s.1 ≡ some d) r done
    ]
