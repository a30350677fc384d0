-- ===== src/Shadow.antt =====
-- pkg/shadow: the claims that stand for the devices behind a composite device, and the parameters
-- that their drivers get.
pub mod Claims
pub mod Params
