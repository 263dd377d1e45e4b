-- ===== src/Bubble/Legacy.antt =====
-- The upgrade of a legacy boot.bin by src/vita/adrbubblebooter/main.c.
use adr_bubble_booter_oss.Prelude.{
  ℕ, zero, suc, ◌-◌, ◌^◌, ◌<◌, ◌≤◌, ◌≡◌, refl, List, [], ◌∷◌, ◌++◌, length, take, drop, replicate,
  arith, some, length-append, length-take, length-replicate, ◌==◌, Bool-cases, inl, inr, take_all,
  Option-cases,
}
use adr_bubble_booter_oss.Text.{c_string, strncpy}
use adr_bubble_booter_oss.BootInfo.{load_word, store_boot_info, load_boot_info}
use adr_bubble_booter_oss.BootInfo.Codec.{IsValid, length-store_boot_info, load-store_boot_info}
use adr_bubble_booter_oss.Bubble.{until_zero, load_legacy, upgrade}

abbrev pub AllBytes : List ℕ → Type 0
AllBytes [] = Unit
AllBytes (b ∷ bs) = (b < 256) × AllBytes bs

AllBytes-drop : (n : ℕ) (bs : List ℕ) → AllBytes bs → AllBytes (drop n bs)
AllBytes-drop zero bs h = h
AllBytes-drop (suc n) [] h = h
AllBytes-drop (suc n) (b ∷ bs) h = AllBytes-drop n bs h.1

load_word-lt : (bs : List ℕ) → AllBytes bs → load_word bs < 2 ^ 32
unfolding load_word
load_word-lt [] h = omega arith
load_word-lt (a ∷ []) h = omega arith
load_word-lt (a ∷ b ∷ []) h = omega arith
load_word-lt (a ∷ b ∷ c ∷ []) h = omega arith
load_word-lt (a ∷ b ∷ c ∷ d ∷ rest) h = omega arith

length-strncpy : (size : ℕ) (s : List ℕ) → length (strncpy size s) ≡ size
unfolding strncpy
length-strncpy size s = omega (
  arith,
  length-append (take size s) (replicate (size - length s) 0),
  length-take size s,
  length-replicate {A = ℕ} (size - length s) 0,
)

upgrade-IsValid : (bytes : List ℕ) → AllBytes bytes → IsValid (upgrade (load_legacy bytes))
unfolding upgrade load_legacy
upgrade-IsValid bytes h =
    let word = λ (i : ℕ). load_word-lt (drop i bytes) (AllBytes-drop i bytes h) in
    record {
      words_fit =
          (word 0, (word 4, (word 8, (word 12, (word 16, (word 20, (word 24, omega arith)))))));
      reserved_size = refl;
      path_size = length-strncpy 256 (until_zero (take 256 (drop 0x20 bytes)));
    }

c_string-until_zero :
    (p : List ℕ) {s : List ℕ} → c_string p ≡ some s → (until_zero p ≡ s) × (length s < length p)
unfolding c_string until_zero
c_string-until_zero [] h = cc
c_string-until_zero (x ∷ p) h = elim (Option-cases (c_string p)) [
  | inl e ↦ ground (arith, e)
  | inr (t, e) ↦ ground (arith, e, c_string-until_zero p e)
]

c_string-pad :
    (p : List ℕ) (n : ℕ) → c_string (until_zero p ++ replicate (suc n) 0) ≡ some (until_zero p)
unfolding c_string until_zero
c_string-pad [] n = ground arith
c_string-pad (x ∷ p) n = elim (Bool-cases (x == 0)) [
  | inl e ↦ rw e (ground arith)
  | inr e ↦ rw e (ground (arith, c_string-pad p n))
]

c_string-strncpy :
    (p : List ℕ) {s : List ℕ}
    → length p ≤ 256
    → c_string p ≡ some s
    → c_string (strncpy 256 (until_zero p)) ≡ some s
unfolding strncpy
c_string-strncpy p {s} le h =
    let (e, lt) = c_string-until_zero p h in
    let n : 256 - length (until_zero p) ≡ suc (255 - length s) = rw e (omega arith) in
    rw (take_all (until_zero p) 256 (rw e (omega arith)), n, c_string-pad p (255 - length s), e)
      refl

-- Whatever a legacy file holds, the record written over it has the current size, so that the next
-- launch does not upgrade again, and reads back as the record of this launch. A legacy path that
-- ends inside its array is the path of the new record.
pub upgrade_once :
    (bytes : List ℕ)
    → AllBytes bytes
    → (length (store_boot_info (upgrade (load_legacy bytes))) ≡ 0x140)
      × (load_boot_info (store_boot_info (upgrade (load_legacy bytes)))
          ≡ upgrade (load_legacy bytes))
      × ((s : List ℕ)
          → c_string (load_legacy bytes).file_path ≡ some s
          → c_string (upgrade (load_legacy bytes)).file_path ≡ some s)
unfolding upgrade load_legacy
upgrade_once bytes h = (
  length-store_boot_info _ (upgrade-IsValid bytes h),
  load-store_boot_info _ (upgrade-IsValid bytes h),
  λ s e. c_string-strncpy (take 256 (drop 0x20 bytes)) short e,
)
  where
    short : length (take 256 (drop 0x20 bytes)) ≤ 256
    short = omega (arith, length-take 256 (drop 0x20 bytes))
