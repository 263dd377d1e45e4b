-- ===== src/Msfs.antt =====
-- integration/adrenaline-v7/overlay/user/msfs.c: the Vita side of the PSP's memory stick. It maps the
-- paths of ms0: to Vita paths, keeps a table of open descriptors, filters directory listings, and
-- moves data in pieces.
pub mod Paths
pub mod Filter
pub mod Table
pub mod Transfer
pub mod Files
pub mod Folders
pub mod Requests
pub mod Serve
