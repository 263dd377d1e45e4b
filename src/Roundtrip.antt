-- ===== src/Roundtrip.antt =====
-- One path through three parts: the bubble finds its location, and msfs.c brings the booter's path back
-- to the Vita path that boot.bin held.
use adr_bubble_booter_oss.Prelude.{
  ℕ, zero, suc, ◌<◌, ◌≤◌, ◌≡◌, refl, arith, List, ◌∷◌, ◌++◌, length, take_all, pos, ap, false, some,
  append_assoc, length-append, ◌∙◌,
}
use adr_bubble_booter_oss.Text.{codes, c_string}
use adr_bubble_booter_oss.BootInfo.{BootInfo}
use adr_bubble_booter_oss.Bubble.{get_pspemu_root, location_of}
use adr_bubble_booter_oss.Bubble.Location.{Free, device_of, root-device_of, location_of-root}
use adr_bubble_booter_oss.Bubble.Texts.{length-root}
use adr_bubble_booter_oss.Booter.{rebase_path}
use adr_bubble_booter_oss.Booter.Paths.{pspemu_path, rebase_path_lem}
use adr_bubble_booter_oss.Msfs.Paths.{memory_stick_location, has_prefix, skip_slash, build_path}

-- adrbubblebooter/main.c and utils.c number the devices alike.
memory_stick_location-get_pspemu_root :
    (n : ℕ) → n < 5 → memory_stick_location (pos n) ≡ get_pspemu_root (pos n)
unfolding memory_stick_location get_pspemu_root
memory_stick_location-get_pspemu_root zero h = refl
memory_stick_location-get_pspemu_root (suc zero) h = refl
memory_stick_location-get_pspemu_root (suc (suc zero)) h = refl
memory_stick_location-get_pspemu_root (suc (suc (suc zero))) h = refl
memory_stick_location-get_pspemu_root (suc (suc (suc (suc zero)))) h = refl
memory_stick_location-get_pspemu_root (suc (suc (suc (suc (suc n))))) h = absurd (omega arith)

-- For a content below the pspemu folder of device n (0 to 4) at a rest that starts with a slash, of at
-- most 200 bytes and without a colon, and whose name behind the slash starts with neither of msfs.c's
-- two special folders: adrbubblebooter takes the location n from the path in boot.bin; the booter
-- makes of it the path ms0: and the rest; and with the location n, msfs.c makes of that rest the path
-- that boot.bin held.
pub build_path-rebase_path :
    (n : ℕ) (name : List ℕ) (b : BootInfo) (app : List ℕ)
    → n < 5
    → Free b':' name
    → length name < 200
    → has_prefix name (codes "__ADRENALINE__") ≡ false
    → has_prefix name (codes "__APPID__") ≡ false
    → c_string b.file_path ≡ some (get_pspemu_root (pos n) ++ (b'/' ∷ name))
    → (location_of (get_pspemu_root (pos n) ++ (b'/' ∷ name)) ≡ some n)
      × ((file_path : List ℕ) × (rebase_path b
            ≡ some (record b { file_path = file_path }, codes "ms0:" ++ (b'/' ∷ name))))
      × (build_path app (pos n) (b'/' ∷ name) ≡ get_pspemu_root (pos n) ++ (b'/' ∷ name))
unfolding build_path skip_slash
build_path-rebase_path n name b app lt free short no_a no_i e =
    let rest = b'/' ∷ name in
    let path : get_pspemu_root (pos n) ++ rest ≡ pspemu_path (device_of n) rest =
      rw (root-device_of n lt, append_assoc (device_of n) (codes ":pspemu") rest) refl in
    let booted =
      rebase_path_lem b (device_of n) rest (omega arith, free) (omega arith) (e ∙ ap some path) in
    let len : length (get_pspemu_root (pos n) ++ rest) ≤ 1023 =
      omega (arith, length-root n, length-append (get_pspemu_root (pos n)) rest) in
    (
      location_of-root n rest lt (omega arith, free) (omega arith),
      (booted.0, booted.1),
      rw (build_path, no_a, no_i, memory_stick_location-get_pspemu_root n lt)
          (take_all (get_pspemu_root (pos n) ++ rest) 1023 len),
    )
