-- ===== src/Minilibc/Strings/Search.antt =====
-- strchr and strrchr of src/vita/common/minilibc.c, against first and last positions.
use adr_bubble_booter_oss.Prelude.{
  ℕ, zero, suc, ◌+◌, ◌%◌, ◌<◌, ◌≡◌, arith, List, [], ◌∷◌, Option, none, some, length, ◌==◌,
  if◌then◌else◌,
}
use adr_bubble_booter_oss.Memory.{Mem, StrAt}
use adr_bubble_booter_oss.Minilibc.Strings.{strchr, strrchr_from, strrchr}

-- The first place of a byte, counted from `i`; the zero byte stands at the end of the string.
unfoldable pub first_at : ℕ → List ℕ → ℕ → Option ℕ
first_at i [] c = if c == 0 then some i else none
first_at i (x ∷ s) c = if x == c then some i else first_at (i + 1) s c

-- The last place of a byte, or what was there before.
unfoldable pub last_at : Option ℕ → ℕ → List ℕ → ℕ → Option ℕ
last_at found i [] c = if c == 0 then some i else found
last_at found i (x ∷ s) c = last_at (if x == c then some i else found) (i + 1) s c

-- strchr returns, with fuel for the string, and points to the first place of the character's low
-- byte, the terminating zero included, or is NULL where there is none.
pub strchr_lem :
    (fuel : ℕ) (m : Mem) (text character : ℕ) (s : List ℕ)
    → StrAt m text s
    → length s < fuel
    → strchr fuel m text character ≡ some (first_at text s (character % 256))
unfolding strchr first_at
strchr_lem zero m p c s h lt = absurd (omega arith)
strchr_lem (suc f) m p c [] h lt = ground arith
strchr_lem (suc f) m p c (x ∷ s) (e, nz, h) lt =
    ground (arith, strchr_lem f m (p + 1) c s h (omega arith))

strrchr_from_lem :
    (fuel : ℕ) (m : Mem) (found : Option ℕ) (p c : ℕ) (s : List ℕ)
    → StrAt m p s
    → length s < fuel
    → strrchr_from fuel m found p c ≡ some (last_at found p s c)
unfolding strrchr_from last_at
strrchr_from_lem zero m found p c s h lt = absurd (omega arith)
strrchr_from_lem (suc f) m found p c [] h lt = ground arith
strrchr_from_lem (suc f) m found p c (x ∷ s) (e, nz, h) lt =
    let ih = strrchr_from_lem f m (if x == c then some p else found) (p + 1) c s h (omega arith) in
    ground (arith, ih)

-- strrchr returns, with fuel for the string, and points to the last place of the character's low
-- byte, the terminating zero included, or is NULL where there is none.
pub strrchr_lem :
    (fuel : ℕ) (m : Mem) (text character : ℕ) (s : List ℕ)
    → StrAt m text s
    → length s < fuel
    → strrchr fuel m text character ≡ some (last_at none text s (character % 256))
unfolding strrchr
strrchr_lem f m p c s h lt = strrchr_from_lem f m none p (c % 256) s h lt
