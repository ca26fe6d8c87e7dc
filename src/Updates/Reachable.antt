-- ===== src/Updates/Reachable.antt =====
-- A vault's account after any instructions on its extensions.
use solana_vault_v.Base.{ℕ, ◌≡◌, sym, ap, ◌∙◌, List, [], ◌++◌, ok}
use solana_vault_v.Bytes.{Bytes, length, drop, drop-append, append_nil}
use solana_vault_v.State.{Pubkey, Vault}
use solana_vault_v.Tlv.Region.{Entry, encode}
use solana_vault_v.Tlv.Typed.{IsTyped}
use solana_vault_v.Tlv.Storage.{VaultExtension, update_vault_extension}
use solana_vault_v.Tlv.Persistence.{account}
use solana_vault_v.Updates.Initialize.{init_extension}
use solana_vault_v.Updates.Shape.{IsDistinct, init_extension-Keeps, update_vault_extension-Keeps}

-- The region holds entries of known types at their full lengths, no type twice, and no more.
abbrev pub IsWellFormed : ℕ → Bytes → Type 0
IsWellFormed tlv_start account_data =
    (head : Bytes) × (es : List Entry) × (length head ≡ tlv_start)
    × (account_data ≡ account head es 0)
    × IsTyped es
    × IsDistinct es

-- One instruction: it adds an extension, changes one, or writes only the vault's own part.
pub data ExtensionStep (tlv_start : ℕ) : Bytes → Bytes → Type 1 where
  initialized :
      {E : Type 0} (extension : VaultExtension E) (authority : Pubkey) (v : Vault) (value : E)
      (account_data account' : Bytes)
      → init_extension tlv_start authority v extension account_data value ≡ ok account'
      → ExtensionStep tlv_start account_data account'
  updated :
      {E : Type 0} (extension : VaultExtension E) (value : E) (account_data account' : Bytes)
      → update_vault_extension tlv_start extension account_data value ≡ ok account'
      → ExtensionStep tlv_start account_data account'
  rewritten :
      (head' account_data : Bytes)
      → length head' ≡ tlv_start
      → ExtensionStep tlv_start account_data (head' ++ drop tlv_start account_data)

pub data ExtensionSteps (tlv_start : ℕ) : Bytes → Bytes → Type 1 where
  done : {account_data : Bytes} → ExtensionSteps tlv_start account_data account_data
  then_step :
      {a b c : Bytes}
      → ExtensionSteps tlv_start a b
      → ExtensionStep tlv_start b c
      → ExtensionSteps tlv_start a c

ExtensionStep-IsWellFormed :
    {tlv_start : ℕ} {a b : Bytes}
    → ExtensionStep tlv_start a b
    → IsWellFormed tlv_start a
    → IsWellFormed tlv_start b
ExtensionStep-IsWellFormed {tlv_start} (initialized extension authority v value a b h)
      (head, es, start, stands, typed, distinct) =
    let run =
      ap (λ n. init_extension n authority v extension (account head es 0) value) start
      ∙ ap (λ d. init_extension tlv_start authority v extension d value) (sym stands)
      ∙ h in
    let (es', stands', typed', distinct') =
      init_extension-Keeps extension head es value typed distinct authority v run in
    (head, es', start, stands', typed', distinct')
ExtensionStep-IsWellFormed {tlv_start} (updated extension value a b h)
      (head, es, start, stands, typed, distinct) =
    let run =
      ap (λ n. update_vault_extension n extension (account head es 0) value) start
      ∙ ap (λ d. update_vault_extension tlv_start extension d value) (sym stands)
      ∙ h in
    let (es', stands', typed', distinct') =
      update_vault_extension-Keeps extension head es value typed distinct run in
    (head, es', start, stands', typed', distinct')
ExtensionStep-IsWellFormed {tlv_start} (rewritten head' a long)
      (head, es, start, stands, typed, distinct) =
    let region =
      ap (λ n. drop n a) (sym start)
      ∙ ap (drop (length head)) stands
      ∙ drop-append head (encode es []) in
    (head', es, long, ap (λ r. head' ++ r) region, typed, distinct)

-- Starting from a new vault's account, which has no extensions: after any instructions in any order
-- that add an extension, change one, or write only what stands before the region, the region holds
-- entries of known types at their full lengths, no type twice, and nothing behind them.
pub ExtensionSteps-IsWellFormed :
    (tlv_start : ℕ) (fresh : Bytes) {account_data : Bytes}
    → length fresh ≡ tlv_start
    → ExtensionSteps tlv_start fresh account_data
    → IsWellFormed tlv_start account_data
ExtensionSteps-IsWellFormed tlv_start fresh long done =
    (fresh, [], long, sym (append_nil fresh), tt, tt)
ExtensionSteps-IsWellFormed tlv_start fresh long (then_step steps step) =
    ExtensionStep-IsWellFormed step (ExtensionSteps-IsWellFormed tlv_start fresh long steps)
