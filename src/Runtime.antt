-- ===== src/Runtime.antt =====
-- What the program uses of the Solana runtime and of the token program: keys, account views, the
-- clock, and token balances. The token program is a parameter with its documented effect.
mod Accounts
pub mod Token
pub mod Tables
unfoldable pub use Accounts.*
