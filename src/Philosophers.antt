-- ===== src/Philosophers.antt =====
-- Diners_pblm/diners_pblm.c and Diners_pblm_sem/diners_pblm_sem.c: five philosophers, with and
-- without four chairs. A step is one call of a philosopher, up to the next one that may block.
pub mod State
pub mod Chairs
pub mod Plain
pub mod Chopsticks
pub mod Rounds
mod Tests
