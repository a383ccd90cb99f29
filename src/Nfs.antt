-- ===== src/Nfs.antt =====
-- support/nfs: the parts of the shared library that handle text.
pub mod Qword
pub mod Wildmat
pub mod Conf
pub mod Tests
