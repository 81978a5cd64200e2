-- ===== src/Vcl.antt =====
-- src/modules/vcl.c: uploading, showing, discarding and deploying VCL, and its copies on disk.
pub mod Files
pub mod Handlers
pub mod Listing
pub mod Json
