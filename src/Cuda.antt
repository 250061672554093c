-- ===== src/Cuda.antt =====
-- CUDA remoting: crates/gpumesh-core/src/cuda_backend.rs and cuda_remote.rs.
pub mod Gpu
pub mod Backend
pub mod Remote
