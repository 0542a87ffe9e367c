-- ===== src/Tests.antt =====
-- Runs of the code at concrete inputs, and the theorems at such inputs.
mod Data
mod Provider
mod Ict
mod Nict
mod Ist
mod Nist
mod Dialog
mod Text
mod Lists
mod Loop
mod Objects
mod Parameters
mod Bodies
mod Channel
