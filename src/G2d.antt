-- ===== src/G2d.antt =====
-- kernel/g2d/g2d_h616.c, the out-of-tree driver of the Allwinner G2D block, by its functions:
-- `Kernel` has what it asks of Linux, `Import` the dma-buf import, `Ioctl` the file operations and
-- `Probe` the life of the platform device. The other children are proofs.
pub mod Kernel
pub mod Import
pub mod Ioctl
pub mod Probe
pub mod Contiguous
pub mod Leaks
pub mod Lifecycle
mod Tests
