-- ===== src/Tests.antt =====
-- Runs of the theorems at concrete inputs.
mod Strings
mod Records
mod Launches
mod Conversion
mod MemoryStick
mod Iso
mod Menus
mod Listings
mod Buttons
mod Usb
mod Settings
mod Screens
mod Upgrades
