-- ===== src/Syslog/Storage.antt =====
-- The storage sink of py-syslog/pysyslog/writer.py.
pub mod Files
pub mod Gzip
pub mod Reconcile
pub mod Archives
pub mod Space
pub mod Writer
mod Examples
