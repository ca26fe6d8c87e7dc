-- ===== src/Instant/Tokens.antt =====
-- What the payments of an instant settlement do to balances and to the supply of shares.
use solana_vault_v.Base.{ℕ, ok, ◌+◌, ◌≤◌, ◌≡◌, ◌≢◌, some, arith, ◌==◌, if◌then◌else◌, >>=-eq-ok}
use solana_vault_v.State.{Pubkey, Vault}
use solana_vault_v.Fee.{split_protocol_fee}
use solana_vault_v.Runtime.{Addresses, Clock, AccountInfo}
use solana_vault_v.Runtime.Token.{TokenProgram}
use solana_vault_v.Requests.World.{transfer_checked, burn_shares}
use solana_vault_v.Requests.Backing.{transfer-covers, transfer-credits, mint_to-covers}
use solana_vault_v.Requests.Backing.Payments.{split_protocol_fee-sum}
use solana_vault_v.Instant.Fees.{InstantAccounts, pay_fee_recipient, pay_protocol}
use solana_vault_v.Instant.Deposit.{move_deposit}
use solana_vault_v.Instant.Redeem.{move_redeem}

module _ (addresses : Addresses) (T : TokenProgram) (clock : Clock)
    (accounts : InstantAccounts) where
  open T use {Tokens, balance, supply}
  open accounts use {share_mint, vault_token_account, user_asset_account, user_share_account}

  pay_fee_recipient-keeps :
      (fee : ℕ) (from k m : Pubkey) (t : Tokens) {t' : Tokens}
      → pay_fee_recipient addresses T accounts fee from t ≡ ok t'
      → (balance t k ≤ balance t' k + (if k == from then fee else 0)) × (supply t' m ≡ supply t m)
  unfolding pay_fee_recipient
  pay_fee_recipient-keeps fee from k m t {t'} h = grind (
    arith,
    λ (info : AccountInfo) (x : Tokens) (e : T.transfer t from info.key fee ≡ some x).
        transfer-covers T t x from info.key k fee e,
    λ (info : AccountInfo) (x : Tokens) (e : T.transfer t from info.key fee ≡ some x).
        T.transfer-supply t x from info.key m fee e,
  )

  pay_protocol-keeps :
      (v : Vault) (fee : ℕ) (from k m : Pubkey) (t : Tokens) {t' : Tokens}
      → pay_protocol addresses T accounts v fee from t ≡ ok t'
      → (balance t k ≤ balance t' k + (if k == from then fee else 0)) × (supply t' m ≡ supply t m)
  unfolding pay_protocol
  pay_protocol-keeps v fee from k m t {t'} h = grind (
    arith,
    λ (info : AccountInfo) (x : Tokens) (e : T.transfer t from info.key fee ≡ some x).
        transfer-covers T t x from info.key k fee e,
    λ (info : AccountInfo) (x : Tokens) (e : T.transfer t from info.key fee ≡ some x).
        T.transfer-supply t x from info.key m fee e,
  )

  pub move_deposit-keeps :
      (v : Vault) (fee net shares : ℕ) (k : Pubkey) (t : Tokens) {t' : Tokens}
      → move_deposit addresses T clock accounts v fee net shares t ≡ ok t'
      → (balance t k ≤ balance t' k + (if k == user_asset_account then fee + net else 0))
        × (supply t' share_mint.key ≡ supply t share_mint.key + shares)
  unfolding move_deposit
  move_deposit-keeps v fee net shares k t {t'} h =
      let from = user_asset_account in
      let m = share_mint.key in
      let ((p, r), split, h1) = >>=-eq-ok (split_protocol_fee fee v.protocol_fee_bps) _ h in
      let (t1, e1, h2) = >>=-eq-ok (pay_fee_recipient addresses T accounts r from t) _ h1 in
      let (t2, e2, h3) = >>=-eq-ok (pay_protocol addresses T accounts v p from t1) _ h2 in
      let (t3, e3, h4) = >>=-eq-ok (transfer_checked T t2 from vault_token_account net) _ h3 in
      ground (
        arith,
        split_protocol_fee-sum fee v.protocol_fee_bps split,
        pay_fee_recipient-keeps r from k m t e1,
        pay_protocol-keeps v p from k m t1 e2,
        transfer-covers T t2 t3 from vault_token_account k net,
        T.transfer-supply t2 t3 from vault_token_account m net,
        mint_to-covers T t3 t' m user_share_account k shares,
        T.mint_to-supply t3 t' m user_share_account shares,
      )

  pub move_deposit-credits :
      (v : Vault) (fee net shares : ℕ) (t : Tokens) {t' : Tokens}
      → move_deposit addresses T clock accounts v fee net shares t ≡ ok t'
      → vault_token_account ≢ user_asset_account
      → balance t vault_token_account + net ≤ balance t' vault_token_account
  unfolding move_deposit
  move_deposit-credits v fee net shares t {t'} h other =
      let from = user_asset_account in
      let m = share_mint.key in
      let k = vault_token_account in
      let ((p, r), split, h1) = >>=-eq-ok (split_protocol_fee fee v.protocol_fee_bps) _ h in
      let (t1, e1, h2) = >>=-eq-ok (pay_fee_recipient addresses T accounts r from t) _ h1 in
      let (t2, e2, h3) = >>=-eq-ok (pay_protocol addresses T accounts v p from t1) _ h2 in
      let (t3, e3, h4) = >>=-eq-ok (transfer_checked T t2 from k net) _ h3 in
      ground (
        arith,
        pay_fee_recipient-keeps r from k m t e1,
        pay_protocol-keeps v p from k m t1 e2,
        transfer-credits T t2 t3 from k k net,
        mint_to-covers T t3 t' m user_share_account k shares,
      )

  pub move_redeem-keeps :
      (v : Vault) (shares fee net : ℕ) (k : Pubkey) (t : Tokens) {t' : Tokens}
      → move_redeem addresses T clock accounts v shares fee net t ≡ ok t'
      → (balance t k
          ≤ balance t' k
            + (if k == vault_token_account then fee + net else 0)
            + (if k == user_share_account then shares else 0))
        × (supply t' share_mint.key + shares ≡ supply t share_mint.key)
  unfolding move_redeem
  move_redeem-keeps v shares fee net k t {t'} h =
      let from = vault_token_account in
      let m = share_mint.key in
      let (t0, e0, h0) = >>=-eq-ok (burn_shares T t m user_share_account shares) _ h in
      let ((p, r), split, h1) = >>=-eq-ok (split_protocol_fee fee v.protocol_fee_bps) _ h0 in
      let (t1, e1, h2) = >>=-eq-ok (pay_fee_recipient addresses T accounts r from t0) _ h1 in
      let (t2, e2, h3) = >>=-eq-ok (pay_protocol addresses T accounts v p from t1) _ h2 in
      ground (
        arith,
        T.burn-from t t0 m user_share_account shares,
        T.burn-other t t0 m user_share_account k shares,
        T.burn-supply t t0 m user_share_account shares,
        split_protocol_fee-sum fee v.protocol_fee_bps split,
        pay_fee_recipient-keeps r from k m t0 e1,
        pay_protocol-keeps v p from k m t1 e2,
        transfer-covers T t2 t' from user_asset_account k net,
        T.transfer-supply t2 t' from user_asset_account m net,
      )

  pub move_redeem-credits :
      (v : Vault) (shares fee net : ℕ) (t : Tokens) {t' : Tokens}
      → move_redeem addresses T clock accounts v shares fee net t ≡ ok t'
      → user_asset_account ≢ vault_token_account
      → user_asset_account ≢ user_share_account
      → balance t user_asset_account + net ≤ balance t' user_asset_account
  unfolding move_redeem
  move_redeem-credits v shares fee net t {t'} h other apart =
      let from = vault_token_account in
      let m = share_mint.key in
      let k = user_asset_account in
      let (t0, e0, h0) = >>=-eq-ok (burn_shares T t m user_share_account shares) _ h in
      let ((p, r), split, h1) = >>=-eq-ok (split_protocol_fee fee v.protocol_fee_bps) _ h0 in
      let (t1, e1, h2) = >>=-eq-ok (pay_fee_recipient addresses T accounts r from t0) _ h1 in
      let (t2, e2, h3) = >>=-eq-ok (pay_protocol addresses T accounts v p from t1) _ h2 in
      ground (
        arith,
        T.burn-other t t0 m user_share_account k shares,
        pay_fee_recipient-keeps r from k m t0 e1,
        pay_protocol-keeps v p from k m t1 e2,
        transfer-credits T t2 t' from k k net,
      )
