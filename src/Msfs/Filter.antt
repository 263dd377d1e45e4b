-- ===== src/Msfs/Filter.antt =====
-- ScePspemuMsfsDirectoryFilter of integration/adrenaline-v7/overlay/user/msfs.c. The two pointers are
-- the rests of the strings that they point to.
pub mod Sound
use adr_bubble_booter_oss.Prelude.{
  ℕ, zero, suc, List, [], ◌∷◌, Bool, true, false, ◌&&◌, ◌||◌, not, if◌then◌else◌, ◌==◌, length,
}

-- `while (*q == '*' || *q == '?') q++;`
unfoldable pub skip_wild : List ℕ → List ℕ
skip_wild [] = []
skip_wild (y ∷ q) = if y == b'*' || y == b'?' then skip_wild q else y ∷ q

-- the byte that a pointer points to, zero at the end
abbrev pub head : List ℕ → ℕ
head [] = 0
head (x ∷ s) = x

-- `while (*p && *p != *q) p++;`
unfoldable pub seek : List ℕ → ℕ → List ℕ
seek [] c = []
seek (x ∷ p) c = if x == c then x ∷ p else seek p c

-- The loop up to its end or its break. Each turn steps over a byte of the filter, or ends it, so the
-- filter's length is enough fuel.
unfoldable pub filter_loop : ℕ → List ℕ → List ℕ → List ℕ × List ℕ
unfolding skip_wild seek
filter_loop zero p q = (p, q)
filter_loop (suc fuel) [] q = ([], q)
filter_loop (suc fuel) (x ∷ p) [] = (x ∷ p, [])
filter_loop (suc fuel) (x ∷ p) (y ∷ q) =
    let step = filter_loop fuel p q in
    let q' = skip_wild q in
    let p' = seek (x ∷ p) (head q') in
    let star = filter_loop fuel p' q' in
    if x == y || y == b'?'
    then step
    else if y == b'*'
    then (if head p' == head q' then star else (p', q'))
    else (x ∷ p, y ∷ q)

unfoldable pub is_end : List ℕ → Bool
is_end [] = true
is_end (x ∷ s) = false

unfoldable pub directory_filter : List ℕ → List ℕ → Bool
unfolding filter_loop is_end
directory_filter name filter =
    let (p, q) = filter_loop (length filter) name filter in is_end p && is_end (skip_wild q)
