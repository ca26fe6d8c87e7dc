-- ===== src/Requests/Backing/Payments.antt =====
-- What the payments of a settlement take from one account and give to another.
use solana_vault_v.Base.{
  ℕ, Option, List, ok, >>=-eq-ok, ◌+◌, ◌≤◌, ◌≡◌, ◌≢◌, none, some, arith, ◌==◌, if◌then◌else◌,
}
use solana_vault_v.State.{Pubkey, Vault}
use solana_vault_v.Fee.{split_protocol_fee}
use solana_vault_v.Runtime.{Addresses, Clock, AccountInfo}
use solana_vault_v.Runtime.Token.{TokenProgram}
use solana_vault_v.Requests.World.{transfer_checked, RequestAccounts}
use solana_vault_v.Requests.FeeAccounts.{pay_fee, fee_recipient_account, protocol_fee_account}
use solana_vault_v.Requests.Approve.{pay_out_net}
use solana_vault_v.Requests.Backing.{transfer-covers, transfer-credits}

pub split_protocol_fee-sum :
    (total bps : ℕ) {p : ℕ × ℕ} → split_protocol_fee total bps ≡ ok p → p.0 + p.1 ≡ total
unfolding split_protocol_fee
split_protocol_fee-sum total bps h = ground arith

module _ (addresses : Addresses) (T : TokenProgram) (clock : Clock)
    (accounts : RequestAccounts) where
  open T use {Tokens, balance}

  pay_fee-covers :
      (t : Tokens) (from k : Pubkey) (to : Option AccountInfo) (amount : ℕ) {t' : Tokens}
      → pay_fee T t from to amount ≡ ok t'
      → balance t k ≤ balance t' k + (if k == from then amount else 0)
  unfolding pay_fee
  pay_fee-covers t from k none amount {t'} h = ground arith
  pay_fee-covers t from k (some info) amount {t'} h =
      grind (arith, λ (x : Tokens). transfer-covers T t x from info.key k amount)

  pay_fee-credits :
      (t : Tokens) (from k : Pubkey) (to : Option AccountInfo) (amount : ℕ) {t' : Tokens}
      → pay_fee T t from to amount ≡ ok t'
      → k ≢ from
      → balance t k ≤ balance t' k
  unfolding pay_fee
  pay_fee-credits t from k none amount {t'} h other = ground arith
  pay_fee-credits t from k (some info) amount {t'} h other =
      grind (arith, λ (x : Tokens). transfer-credits T t x from info.key k amount)

  -- Two fees and a transfer, one after the other, out of one account.
  pay_three-covers :
      (from to k : Pubkey) (a b : Option AccountInfo) (m n net : ℕ) (t : Tokens) {t1 t2 t' : Tokens}
      → pay_fee T t from a m ≡ ok t1
      → pay_fee T t1 from b n ≡ ok t2
      → transfer_checked T t2 from to net ≡ ok t'
      → balance t k ≤ balance t' k + (if k == from then m + n + net else 0)
  pay_three-covers from to k a b m n net t {t1} {t2} {t'} h1 h2 h3 = ground (
    arith,
    pay_fee-covers t from k a m h1,
    pay_fee-covers t1 from k b n h2,
    transfer-covers T t2 t' from to k net,
  )

  pay_three-credits :
      (from to : Pubkey) (a b : Option AccountInfo) (m n net : ℕ) (t : Tokens) {t1 t2 t' : Tokens}
      → pay_fee T t from a m ≡ ok t1
      → pay_fee T t1 from b n ≡ ok t2
      → transfer_checked T t2 from to net ≡ ok t'
      → to ≢ from
      → balance t to + net ≤ balance t' to
  pay_three-credits from to a b m n net t {t1} {t2} {t'} h1 h2 h3 other = ground (
    arith,
    pay_fee-credits t from to a m h1 other,
    pay_fee-credits t1 from to b n h2 other,
    transfer-credits T t2 t' from to to net,
  )

  -- The account that a settlement is paid from loses at most the fee and the net amount.
  pub pay_out_net-covers :
      (v : Vault) (fee net : ℕ) (from to : Pubkey) (l : List AccountInfo) (t : Tokens) (k : Pubkey)
      {t' : Tokens}
      → pay_out_net addresses T clock accounts v fee net from to l t ≡ ok t'
      → balance t k ≤ balance t' k + (if k == from then fee + net else 0)
  unfolding pay_out_net
  pay_out_net-covers v fee net from to l t k {t'} h =
      let ((p, r), split, h1) = >>=-eq-ok (split_protocol_fee fee v.protocol_fee_bps) _ h in
      let ((a, left), _, h2) = >>=-eq-ok (fee_recipient_account v r l) _ h1 in
      let (b, _, h3) = >>=-eq-ok (protocol_fee_account addresses v p left) _ h2 in
      let (t1, e1, h4) = >>=-eq-ok (pay_fee T t from a r) _ h3 in
      let (t2, e2, h5) = >>=-eq-ok (pay_fee T t1 from b p) _ h4 in
      ground (
        arith,
        split_protocol_fee-sum fee v.protocol_fee_bps split,
        pay_three-covers from to k a b r p net t e1 e2 h5,
      )

  pub pay_out_net-credits :
      (v : Vault) (fee net : ℕ) (from to : Pubkey) (l : List AccountInfo) (t : Tokens) {t' : Tokens}
      → pay_out_net addresses T clock accounts v fee net from to l t ≡ ok t'
      → to ≢ from
      → balance t to + net ≤ balance t' to
  unfolding pay_out_net
  pay_out_net-credits v fee net from to l t {t'} h other =
      let ((p, r), split, h1) = >>=-eq-ok (split_protocol_fee fee v.protocol_fee_bps) _ h in
      let ((a, left), _, h2) = >>=-eq-ok (fee_recipient_account v r l) _ h1 in
      let (b, _, h3) = >>=-eq-ok (protocol_fee_account addresses v p left) _ h2 in
      let (t1, e1, h4) = >>=-eq-ok (pay_fee T t from a r) _ h3 in
      let (t2, e2, h5) = >>=-eq-ok (pay_fee T t1 from b p) _ h4 in
      pay_three-credits from to a b r p net t e1 e2 h5 other
