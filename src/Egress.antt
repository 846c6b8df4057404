-- ===== src/Egress.antt =====
-- The routed egress: src/egress-router.ts and src/egress-killswitch.ts.
pub mod Router
pub mod Choice
pub mod Killswitch
pub mod Halt
mod Tests
