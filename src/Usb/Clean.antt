-- ===== src/Usb/Clean.antt =====
-- startUsb leaves nothing behind when it fails.
use adr_bubble_booter_oss.Prelude.{
  ℕ, ◌≡◌, refl, List, ℤ, eqb_ℤ, is_neg, Bool, true, false, not, ◌&&◌, Bool-cases, ◌⊎◌, inl, inr,
}
use adr_bubble_booter_oss.Usb.{Host, error_storage, start_with, start_usb}

and_left : (a b : Bool) → (a && b) ≡ true → a ≡ true
and_left true b h = refl
and_left false b h = h

-- The state of the system: no module of ours; the module of this number loaded; that module loaded and
-- the MTP driver stopped; its storage started; and the power locked too. What the calls do to it, by
-- their results: a module is unloaded by its own number.
pub record Behaves (h : Host) : Type 1 where
  pub Idle : h.World → Type 0
  pub Loaded : ℤ → h.World → Type 0
  pub Ready : ℤ → h.World → Type 0
  pub Started : ℤ → h.World → Type 0
  pub Locked : ℤ → h.World → Type 0
  pub destroy_idle : (w : h.World) → Idle w → Idle (h.destroy_other_app w)
  pub load_fails :
      (path : List ℕ) (w : h.World)
      → Idle w
      → is_neg (h.load_start_module path w).0 ≡ true
      → Idle (h.load_start_module path w).1
  pub load_succeeds :
      (path : List ℕ) (w : h.World)
      → Idle w
      → is_neg (h.load_start_module path w).0 ≡ false
      → Loaded (h.load_start_module path w).0 (h.load_start_module path w).1
  pub unload : (modid : ℤ) (w : h.World) → Loaded modid w → Idle (h.stop_unload_module modid w).1
  -- the driver is stopped, or was not running
  pub mtp_stops :
      (modid : ℤ) (w : h.World)
      → Loaded modid w
      → (is_neg (h.stop_mtp_driver w).0 && not (eqb_ℤ (h.stop_mtp_driver w).0 h.mtp_not_running))
        ≡ false
      → Ready modid (h.stop_mtp_driver w).1
  pub mtp_fails :
      (modid : ℤ) (w : h.World)
      → Loaded modid w
      → (is_neg (h.stop_mtp_driver w).0 && not (eqb_ℤ (h.stop_mtp_driver w).0 h.mtp_not_running))
        ≡ true
      → Loaded modid (h.stop_mtp_driver w).1
  pub mtp_starts : (modid : ℤ) (w : h.World) → Ready modid w → Loaded modid (h.start_mtp_driver w).1
  pub info_ready : (modid : ℤ) (w : h.World) → Ready modid w → Ready modid (h.set_device_info w).1
  pub image_ready :
      (modid : ℤ) (image : List ℕ) (w : h.World)
      → Ready modid w
      → Ready modid (h.set_image_path image w).1
  pub start_fails :
      (modid : ℤ) (type : ℕ) (w : h.World)
      → Ready modid w
      → is_neg (h.start_storage type w).0 ≡ true
      → Ready modid (h.start_storage type w).1
  pub start_succeeds :
      (modid : ℤ) (type : ℕ) (w : h.World)
      → Ready modid w
      → is_neg (h.start_storage type w).0 ≡ false
      → Started modid (h.start_storage type w).1
  pub lock : (modid : ℤ) (w : h.World) → Started modid w → Locked modid (h.lock_power w)

module _ (h : Host) (b : Behaves h) where
  -- an error with nothing left, or the module of a storage that is started with the power locked
  abbrev pub IsClean : ℤ × h.World → Type 0
  IsClean r = ((is_neg r.0 ≡ true) × b.Idle r.1) ⊎ ((is_neg r.0 ≡ false) × b.Locked r.0 r.1)

  error_storage-IsClean :
      (modid res : ℤ) (w : h.World)
      → is_neg res ≡ true
      → b.Ready modid w
      → IsClean (error_storage h modid res w)
  error_storage-IsClean modid res w neg ready =
      inl (neg, b.unload modid (h.start_mtp_driver w).1 (b.mtp_starts modid w ready))

  start_with-IsClean :
      (modid : ℤ) (image : List ℕ) (type : ℕ) (w : h.World)
      → is_neg modid ≡ false
      → b.Ready modid w
      → IsClean (start_with h modid image type w)
  unfolding start_with
  start_with-IsClean modid image type w ok ready =
      let w₁ = (h.set_device_info w).1 in
      let w₂ = (h.set_image_path image w₁).1 in
      let w₃ = (h.start_storage type w₂).1 in
      let ready₁ = b.info_ready modid w ready in
      let ready₂ = b.image_ready modid image w₁ ready₁ in
      elim (Bool-cases (is_neg (h.set_device_info w).0)) [
        | inl n ↦ rw (start_with, n) (error_storage-IsClean modid _ w₁ n ready₁)
        | inr n ↦ elim (Bool-cases (is_neg (h.set_image_path image w₁).0)) [
          | inl n' ↦ rw (start_with, n, n') (error_storage-IsClean modid _ w₂ n' ready₂)
          | inr n' ↦ elim (Bool-cases (is_neg (h.start_storage type w₂).0)) [
            | inl n'' ↦
                rw (start_with, n, n', n'')
                  (error_storage-IsClean modid _ w₃ n'' (b.start_fails modid type w₂ ready₂ n''))
            | inr n'' ↦
                rw (start_with, n, n', n'')
                  (inr (ok, b.lock modid w₃ (b.start_succeeds modid type w₂ ready₂ n'')))
          ]
        ]
      ]

  -- Where the calls do what their results say, stopping the module succeeds, and so does starting the
  -- MTP driver again: startUsb of an idle system either returns a negative result and the system is
  -- idle again, with its module stopped, or it returns the number of the loaded module, whose storage
  -- is started with the power locked.
  pub start_usb-IsClean :
      (device image : List ℕ) (type : ℕ) (w : h.World)
      → b.Idle w
      → IsClean (start_usb h device image type w)
  unfolding start_usb
  start_usb-IsClean device image type w idle =
      let w₀ = h.destroy_other_app w in
      let w₁ = (h.load_start_module device w₀).1 in
      let idle₀ = b.destroy_idle w idle in
      let modid = (h.load_start_module device w₀).0 in
      let r = h.stop_mtp_driver w₁ in
      elim (Bool-cases (is_neg modid)) [
        | inl n ↦ rw (start_usb, n) (inl (n, b.load_fails device w₀ idle₀ n))
        | inr n ↦
            let loaded = b.load_succeeds device w₀ idle₀ n in
            elim (Bool-cases (is_neg r.0 && not (eqb_ℤ r.0 h.mtp_not_running))) [
              | inl f ↦
                  rw (start_usb, n, f)
                    (inl (and_left _ _ f, b.unload modid r.1 (b.mtp_fails modid w₁ loaded f)))
              | inr f ↦
                  rw (start_usb, n, f)
                    (start_with-IsClean modid image type r.1 n (b.mtp_stops modid w₁ loaded f))
            ]
      ]
