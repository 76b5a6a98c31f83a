-- ===== src/Fleet.antt =====
-- web/components/fleet/FleetPulse.tsx: how hard the fleet works, and what is worth doing next. The
-- loads of a host are whole percentages here, so `Math.round` leaves them.
pub mod Pulse
pub mod Offers
pub mod Suggestions
pub mod Next
pub mod Listed
mod Tests
