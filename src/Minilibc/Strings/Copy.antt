-- ===== src/Minilibc/Strings/Copy.antt =====
-- strcpy and strncpy of src/vita/common/minilibc.c.
use adr_bubble_booter_oss.Prelude.{
  ℕ, zero, suc, ◌+◌, ◌≤◌, ◌<◌, ◌≡◌, ◌≢◌, refl, arith, List, [], ◌∷◌, some, length, ◌⊎◌, get_or, ltb,
  leb, ◌&&◌, if◌then◌else◌, ◌==◌, false,
}
use adr_bubble_booter_oss.Memory.{Mem, StrAt, StrAt-agree, store, AgreeOff}
use adr_bubble_booter_oss.Minilibc.Strings.{strcpy, strncpy, pad_zero}

-- the memory with the string `s` and its zero byte written from `p` on
pub put_string : Mem → ℕ → List ℕ → Mem
put_string m p [] = store m p 0
put_string m p (c ∷ s) = put_string (store m p c) (p + 1) s

pub put_string-AgreeOff :
    (m : Mem) (p : ℕ) (s : List ℕ) → AgreeOff m (put_string m p s) p (length s + 1)
unfolding put_string
put_string-AgreeOff m p [] q h = ground arith
put_string-AgreeOff m p (c ∷ s) q h =
    ground (arith, put_string-AgreeOff (store m p c) (p + 1) s q (omega arith))

pub put_string-StrAt :
    (m m' : Mem) (p n : ℕ) (s : List ℕ) → StrAt m' n s → StrAt (put_string m p s) p s
unfolding put_string
put_string-StrAt m m' p n [] h = ground arith
put_string-StrAt m m' p n (c ∷ s) (e, nz, h) = (
  ground (arith, put_string-AgreeOff (store m p c) (p + 1) s p (omega arith)),
  nz,
  put_string-StrAt (store m p c) m' (p + 1) (n + 1) s h,
)

-- A string keeps its place under a store beside it.
StrAt-store :
    (m : Mem) (p q v : ℕ) (s : List ℕ)
    → StrAt m p s
    → (q < p) ⊎ (p + length s < q)
    → StrAt (store m q v) p s
StrAt-store m p q v s h off = StrAt-agree m (store m q v) p s h (λ r lo hi. ground arith)

pub strcpy-put_string :
    (fuel : ℕ) (m : Mem) (d p : ℕ) (s : List ℕ)
    → StrAt m p s
    → length s < fuel
    → (d < p) ⊎ (p + length s < d)
    → strcpy fuel m d p ≡ some (put_string m d s)
unfolding strcpy put_string
strcpy-put_string zero m d p s h lt off = absurd (omega arith)
strcpy-put_string (suc fuel) m d p [] h lt off = ground arith
strcpy-put_string (suc fuel) m d p (c ∷ s) (e, nz, h) lt off =
    let h' : StrAt (store m d c) (p + 1) s = StrAt-store m (p + 1) d c s h (omega arith) in
    ground
      (arith, strcpy-put_string fuel (store m d c) (d + 1) (p + 1) s h' (omega arith) (omega arith))

-- strcpy of a string that the destination does not overlap ends, leaves the string at the
-- destination, and changes no byte outside the length + 1 bytes there.
pub strcpy_lem :
    (fuel : ℕ) (m : Mem) (destination source : ℕ) (s : List ℕ)
    → StrAt m source s
    → length s < fuel
    → (destination + length s < source) ⊎ (source + length s < destination)
    → (m' : Mem) × (strcpy fuel m destination source ≡ some m')
      × StrAt m' destination s
      × StrAt m' source s
      × AgreeOff m m' destination (length s + 1)
strcpy_lem fuel m d p s h lt off = (
  put_string m d s,
  strcpy-put_string fuel m d p s h lt (omega arith),
  put_string-StrAt m m d p s h,
  StrAt-agree m (put_string m d s) p s h (λ q lo hi. put_string-AgreeOff m d s q (omega arith)),
  put_string-AgreeOff m d s,
)

pub pad_zero_lem :
    (m : Mem) (d size q : ℕ)
    → pad_zero m d size q ≡ (if leb d q && ltb q (d + size) then 0 else m q)
unfolding pad_zero
pad_zero_lem m d zero q = ground arith
pad_zero_lem m d (suc n) q = ground (arith, pad_zero_lem (store m d 0) (d + 1) n q)

strncpy-AgreeOff : (size : ℕ) (m : Mem) (d p : ℕ) → AgreeOff m (strncpy m d p size) d size
unfolding strncpy
strncpy-AgreeOff zero m d p q h = ground arith
strncpy-AgreeOff (suc n) m d p q h = ground (
  arith,
  pad_zero_lem m d (suc n) q,
  strncpy-AgreeOff n (store m d (m p)) (d + 1) (p + 1) q (omega arith),
)

-- one round of the first loop
strncpy_next :
    (n : ℕ) (m : Mem) (d p : ℕ)
    → m p ≢ 0
    → strncpy m d p (suc n) ≡ strncpy (store m d (m p)) (d + 1) (p + 1) n
unfolding strncpy
strncpy_next n m d p h = let e : (m p == 0) ≡ false = ground arith in rw e refl

strncpy_copies :
    (size : ℕ) (m : Mem) (d p : ℕ) (s : List ℕ) (k : ℕ)
    → StrAt m p s
    → (d + size ≤ p) ⊎ (p + length s < d)
    → k < size
    → strncpy m d p size (d + k) ≡ get_or s k 0
strncpy_copies zero m d p s k h off lt = absurd (omega arith)
strncpy_copies (suc n) m d p [] k h off lt =
    unfold strncpy in ground (arith, pad_zero_lem m d (suc n) (d + k))
strncpy_copies (suc n) m d p (c ∷ s) zero (e, nz, h) off lt =
    let a : d + 0 ≡ d = omega arith in
    rw (a, strncpy_next n m d p (omega arith))
      (ground (arith, strncpy-AgreeOff n (store m d (m p)) (d + 1) (p + 1) d (omega arith)))
strncpy_copies (suc n) m d p (c ∷ s) (suc k) (e, nz, h) off lt =
    let a : d + suc k ≡ d + 1 + k = omega arith in
    let h' : StrAt (store m d (m p)) (p + 1) s = StrAt-store m (p + 1) d (m p) s h (omega arith) in
    rw (a, strncpy_next n m d p (omega arith))
      (strncpy_copies n (store m d (m p)) (d + 1) (p + 1) s k h' (omega arith) (omega arith))

-- strncpy of a string that the destination does not overlap writes exactly size bytes: those of
-- the string, cut at size, with zeros behind a shorter string. So a string of size bytes or more is
-- left with no zero byte. It changes no other byte.
pub strncpy_lem :
    (size : ℕ) (m : Mem) (destination source : ℕ) (s : List ℕ)
    → StrAt m source s
    → (destination + size ≤ source) ⊎ (source + length s < destination)
    → ((k : ℕ) → k < size → strncpy m destination source size (destination + k) ≡ get_or s k 0)
      × AgreeOff m (strncpy m destination source size) destination size
strncpy_lem size m d p s h off =
    (λ k lt. strncpy_copies size m d p s k h off lt, strncpy-AgreeOff size m d p)
