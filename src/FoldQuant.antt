-- ===== src/FoldQuant.antt =====
-- FoldQuant (src/foldquant.h, src/foldquant.cpp, src/foldquant_ref.cpp): the CPU reference of the
-- quantized linear layers, the layout of its blobs, and what a site's description must satisfy.
pub mod Floats
pub mod Pack
pub mod Layout
pub mod Rotate
pub mod Activation
pub mod Gemm
pub mod Node
pub mod Widths
pub mod Site
pub mod Policy
pub mod Declare
pub mod Dequant
mod Tests
mod SiteTests
