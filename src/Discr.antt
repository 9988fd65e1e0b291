-- ===== src/Discr.antt =====
-- include/salgo/_/discr: numbers modulo, primes and binomials.
pub mod ModuloUtils
pub mod Binomial
pub mod Primes
pub mod Modulo
pub mod ModuloHash
