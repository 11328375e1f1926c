-- ===== src/Captcha.antt =====
-- captcha/: the tokens of the captcha.
pub mod Texts
pub mod Split
pub mod Crypto
pub mod Padding
pub mod Token
pub mod Payload
pub mod Expiring
pub mod Lawful
pub mod Signed
pub mod Validate
pub mod Reading
