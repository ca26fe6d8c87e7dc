-- ===== src/Setup/Protocol.antt =====
-- The protocol's fee recipient, and the operator of a request
-- (programs/async_vault_v2/src/instructions/*_protocol_fee_config.rs and set_operator.rs).
use solana_vault_v.Base.{ℕ, not, some, ok, ◌>>◌, ◌==◌}
use solana_vault_v.Error.{Outcome, require, invalid_fee_recipient, unauthorized_signer}
use solana_vault_v.State.{Pubkey, default_pubkey, ProtocolFeeConfig, Request}

-- Anybody may create the one account there is, and is then its authority.
unfoldable pub initialize_protocol_fee_config : Pubkey → ℕ → Pubkey → Outcome ProtocolFeeConfig
initialize_protocol_fee_config authority bump protocol_fee_recipient = do
  require (not (protocol_fee_recipient == default_pubkey)) invalid_fee_recipient
  ok (record {
    authority = authority;
    protocol_fee_recipient = protocol_fee_recipient;
    bump = bump;
  })

unfoldable pub update_protocol_fee_config :
    Pubkey → ProtocolFeeConfig → Pubkey → Outcome ProtocolFeeConfig
update_protocol_fee_config authority config protocol_fee_recipient = do
  require (config.authority == authority) unauthorized_signer
  require (not (protocol_fee_recipient == default_pubkey)) invalid_fee_recipient
  ok (record config { protocol_fee_recipient = protocol_fee_recipient })

unfoldable pub set_operator : Pubkey → Pubkey → Request → Outcome Request
set_operator user operator request = do
  require (user == request.owner) unauthorized_signer
  ok (record request { operator = some operator })
