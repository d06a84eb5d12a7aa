-- ===== src/Auth/Tests.antt =====
-- Runs of the authentication on concrete inputs, which show that the hypotheses of the theorems can
-- hold.
mod Sample
mod Sessions
mod Tokens
mod Accounts
mod Codes
