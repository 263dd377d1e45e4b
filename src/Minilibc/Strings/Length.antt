-- ===== src/Minilibc/Strings/Length.antt =====
-- strlen of src/vita/common/minilibc.c.
use adr_bubble_booter_oss.Prelude.{ℕ, zero, suc, ◌+◌, ◌<◌, ◌≡◌, arith, List, [], ◌∷◌, some, length}
use adr_bubble_booter_oss.Memory.{Mem, StrAt}
use adr_bubble_booter_oss.Minilibc.Strings.{scan_end, strlen}

pub scan_end_lem :
    (fuel : ℕ) (m : Mem) (p : ℕ) (s : List ℕ)
    → StrAt m p s
    → length s < fuel
    → scan_end fuel m p ≡ some (p + length s)
unfolding scan_end
scan_end_lem zero m p s h lt = absurd (omega arith)
scan_end_lem (suc fuel) m p [] h lt = ground arith
scan_end_lem (suc fuel) m p (c ∷ s) (e, nz, h) lt =
    ground (arith, scan_end_lem fuel m (p + 1) s h (omega arith))

-- strlen of a string is its length, with more fuel than that.
pub strlen_lem :
    (fuel : ℕ) (m : Mem) (p : ℕ) (s : List ℕ)
    → StrAt m p s
    → length s < fuel
    → strlen fuel m p ≡ some (length s)
unfolding strlen
strlen_lem fuel m p s h lt = ground (arith, scan_end_lem fuel m p s h lt)
