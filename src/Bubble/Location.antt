-- ===== src/Bubble/Location.antt =====
-- The memory-stick location that src/vita/adrbubblebooter/main.c finds from a content path.
use adr_bubble_booter_oss.Prelude.{
  ℕ, zero, suc, ◌+◌, ◌-◌, ◌<◌, ◌≤◌, ◌≡◌, ◌≢◌, refl, List, [], ◌∷◌, ◌++◌, length, arith, none, some,
  length-append, pos, take-append_exact, true, leb, ltb, append_assoc,
}
use adr_bubble_booter_oss.Text.{codes, strrchr}
use adr_bubble_booter_oss.Vita.Files.{get_device_name, cut_at_colon}
use adr_bubble_booter_oss.Bubble.{get_ms_location, get_pspemu_root, clamp_location, location_of}

-- the byte does not occur in the string
abbrev pub Free : ℕ → List ℕ → Type 0
Free c [] = Unit
Free c (x ∷ s) = (x ≢ c) × Free c s

pub strrchr-Free : (c : ℕ) (s : List ℕ) → Free c s → strrchr s c ≡ none
unfolding strrchr
strrchr-Free c [] h = refl
strrchr-Free c (x ∷ s) (ne, h) = ground (arith, strrchr-Free c s h)

-- the last place of a byte is before what does not hold it
pub strrchr-append : (c : ℕ) (pre s : List ℕ) → Free c s → strrchr (pre ++ (c ∷ s)) c ≡ some (c ∷ s)
unfolding strrchr
strrchr-append c [] s h = ground (arith, strrchr-Free c s h)
strrchr-append c (x ∷ pre) s h = ground (arith, strrchr-append c pre s h)

-- The device of a path is what stands before its only colon, or its last one.
pub get_device_name_lem :
    (device rest : List ℕ)
    → Free b':' rest
    → length device + 1 + length rest < 256
    → get_device_name (device ++ (b':' ∷ rest)) ≡ some (some device)
unfolding get_device_name cut_at_colon
get_device_name_lem device rest free lt =
    let len : length (device ++ (b':' ∷ rest)) ≡ length device + 1 + length rest =
      omega (arith, length-append device (b':' ∷ rest)) in
    let a : leb (length (device ++ (b':' ∷ rest))) 256 ≡ true = ground (arith, len) in
    let b : ltb (length (device ++ (b':' ∷ rest))) 256 ≡ true = ground (arith, len) in
    let n : length (device ++ (b':' ∷ rest)) - length (b':' ∷ rest) ≡ length device =
      omega (arith, len) in
    rw
      (
        a,
        b,
        cut_at_colon,
        strrchr-append b':' device rest free,
        n,
        take-append_exact device (b':' ∷ rest) (length device) refl,
      )
      refl

-- the device names, as the location numbers them
abbrev pub device_of : ℕ → List ℕ
device_of zero = codes "ux0"
device_of (suc zero) = codes "ur0"
device_of (suc (suc zero)) = codes "imc0"
device_of (suc (suc (suc zero))) = codes "xmc0"
device_of (suc (suc (suc (suc n)))) = codes "uma0"

get_ms_location-device_of : (n : ℕ) → n < 5 → get_ms_location (device_of n) ≡ pos n
unfolding get_ms_location
get_ms_location-device_of zero h = refl
get_ms_location-device_of (suc zero) h = refl
get_ms_location-device_of (suc (suc zero)) h = refl
get_ms_location-device_of (suc (suc (suc zero))) h = refl
get_ms_location-device_of (suc (suc (suc (suc zero)))) h = refl
get_ms_location-device_of (suc (suc (suc (suc (suc n))))) h = absurd (omega arith)

pub root-device_of : (n : ℕ) → n < 5 → get_pspemu_root (pos n) ≡ device_of n ++ codes ":pspemu"
unfolding get_pspemu_root
root-device_of zero h = refl
root-device_of (suc zero) h = refl
root-device_of (suc (suc zero)) h = refl
root-device_of (suc (suc (suc zero))) h = refl
root-device_of (suc (suc (suc (suc zero)))) h = refl
root-device_of (suc (suc (suc (suc (suc n))))) h = absurd (omega arith)

length-device_of : (n : ℕ) → length (device_of n) ≤ 4
length-device_of zero = omega arith
length-device_of (suc zero) = omega arith
length-device_of (suc (suc zero)) = omega arith
length-device_of (suc (suc (suc zero))) = omega arith
length-device_of (suc (suc (suc (suc n)))) = omega arith

-- The path of device n's pspemu folder (n from 0 to 4) with a rest without a colon, of less than 240
-- bytes, behind it gives the location n.
pub location_of-root :
    (n : ℕ) (rest : List ℕ)
    → n < 5
    → Free b':' rest
    → length rest < 240
    → location_of (get_pspemu_root (pos n) ++ rest) ≡ some n
unfolding location_of clamp_location
location_of-root n rest h free lt =
    let named =
      get_device_name_lem (device_of n) (codes "pspemu" ++ rest)
        (
          omega arith,
          (omega arith, (omega arith, (omega arith, (omega arith, (omega arith, free))))),
        )
        (omega (arith, length-device_of n)) in
    rw
      (
        root-device_of n h,
        append_assoc (device_of n) (codes ":pspemu") rest,
        location_of,
        named,
        get_ms_location-device_of n h,
      )
      refl
