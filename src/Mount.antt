-- ===== src/Mount.antt =====
-- utils/mount: the options and the device name that mount.nfs is given.
pub mod Token
pub mod Options
pub mod Devname
pub mod Version
pub mod Network
pub mod Tests
