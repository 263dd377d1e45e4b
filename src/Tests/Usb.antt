-- ===== src/Tests/Usb.antt =====
-- usb.c with a system that refuses one kind of storage.
use adr_bubble_booter_oss.Prelude.{
  ℕ, ◌≡◌, refl, pos, negsuc, if◌then◌else◌, ◌==◌, Bool-cases, eqb_ℤ, true, inl, inr,
}
use adr_bubble_booter_oss.Text.{codes}
use adr_bubble_booter_oss.Usb.{Host, start_usb}
use adr_bubble_booter_oss.Usb.Clean.{Behaves, IsClean, start_usb-IsClean}

-- The world counts the states: idle, loaded, ready, started and locked. The module has the number 5.
abbrev host : Host
host = record {
  World = ℕ;
  destroy_other_app = λ w. w;
  load_start_module = λ path w. (pos 5, 1);
  stop_unload_module = λ modid w. (pos 0, if eqb_ℤ modid (pos 5) then 0 else w);
  stop_mtp_driver = λ w. (pos 0, 2);
  start_mtp_driver = λ w. (pos 0, 1);
  set_device_info = λ w. (pos 0, w);
  set_image_path = λ image w. (pos 0, w);
  start_storage = λ type w. if type == 1 then (negsuc 0, w) else (pos 0, 3);
  stop_storage = λ w. (pos 0, 2);
  lock_power = λ w. 4;
  unlock_power = λ w. 0;
  io_dopen = λ folder w. (negsuc 0, w);
  io_dclose = λ fd w. w;
  umount = λ id a w. w;
  mount = λ id w. w;
  mtp_not_running = negsuc 9;
}

host-Behaves : Behaves host
host-Behaves = record {
  Idle = λ w. w ≡ 0;
  Loaded = λ modid w. (modid ≡ pos 5) × (w ≡ 1);
  Ready = λ modid w. (modid ≡ pos 5) × (w ≡ 2);
  Started = λ modid w. (modid ≡ pos 5) × (w ≡ 3);
  Locked = λ modid w. (modid ≡ pos 5) × (w ≡ 4);
  destroy_idle = λ w e. e;
  load_fails = λ path w e f. absurd (cc f);
  load_succeeds = λ path w e f. (refl, refl);
  unload = λ modid w e. let r : eqb_ℤ modid (pos 5) ≡ true = rw (e.0) refl in rw r refl;
  mtp_stops = λ modid w e f. (e.0, refl);
  mtp_fails = λ modid w e f. absurd (cc f);
  mtp_starts = λ modid w e. (e.0, refl);
  info_ready = λ modid w e. e;
  image_ready = λ modid image w e. e;
  start_fails = λ modid type w e f. elim (Bool-cases (type == 1)) [
    | inl a ↦ rw a e
    | inr a ↦ absurd (cc (rw a at f))
  ];
  start_succeeds = λ modid type w e f. elim (Bool-cases (type == 1)) [
    | inl a ↦ absurd (cc (rw a at f))
    | inr a ↦ rw a (e.0, refl)
  ];
  lock = λ modid w e. (e.0, refl);
}

start_usb-IsClean_example :
    IsClean host host-Behaves (start_usb host (codes "usbdevice.skprx") (codes "sdstor0:") 1 0)
unfolding host-Behaves
start_usb-IsClean_example =
    start_usb-IsClean host host-Behaves (codes "usbdevice.skprx") (codes "sdstor0:") 1 0 refl

refused : start_usb host (codes "usbdevice.skprx") (codes "sdstor0:") 1 0 ≡ (negsuc 0, 0)
unfolding start_usb
refused = refl
