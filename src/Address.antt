-- ===== src/Address.antt =====
-- The resolution of instruction addresses against the linked binary
-- (lib/MIRPasses/AdressResolverPass.cpp).
pub mod Align
pub mod Order
