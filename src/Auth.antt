-- ===== src/Auth.antt =====
-- src/ezauth/services/auth.py: signup, magic links, codes and password sign-in, as actions on the
-- world that may raise. A request's random draws and clock readings are one record of arguments.
pub mod Steps
pub mod Signup
pub mod Consume
pub mod Signin
pub mod Enumeration
pub mod Scope
pub mod VerifyCode
pub mod Transactions
