-- ===== src/Models/Delegate.antt =====
-- models/delegate.go, delegate_*.go: the getters and the setters of a delegate, its fee, and the
-- queries and updates of its table.
pub mod Frame
pub mod Health
pub mod Saving
pub mod Fees
pub mod Deletion
pub mod Invariant
use photon_monitoring.Base.{
  ℕ, suc, ◌+◌, ◌*◌, ◌^◌, ℤ, pos, Bool, true, false, Option, none, some, List, [], ◌∷◌, Text, ⊤,
  ◌==◌, ltb_ℤ, ◌+ℤ◌, ◌*ℤ◌, text_eq, length, if◌then◌else◌,
}
use photon_monitoring.Orm.{Fetch, found, not_found, failed, unless_blank}
use photon_monitoring.Platform.{Platform, settings, Reply, reply, reply_err}
use photon_monitoring.Utils.{string_to_big_int, big_int_to_string}
use photon_monitoring.World.{
  M, World, ◌>>=◌, ◌>>◌, pure, panic, first, find, write, in_tx, delegates, punishes,
  announce_disposes,
}
use photon_monitoring.Models.Rows.{
  Delegate, DelegateStatus, DelegatePunish, DelegateAnnounceDispose, DelegateUpdateBalanceProof,
  DelegateUnlock, DelegateSecret,
}

-- append(channelIdentifier, address): 32 bytes and 20 bytes.
pub build_delegate_key : ℕ → ℕ → ℕ
build_delegate_key channel delegator = channel * 2 ^ 160 + delegator

pub set_update_balance_proof : Delegate → DelegateUpdateBalanceProof → Delegate
set_update_balance_proof d x = record d { update_balance_proof_gob = some x }

pub set_unlocks : Delegate → List DelegateUnlock → Delegate
set_unlocks d x = record d { unlocks_gob = some x }

pub set_secrets : Delegate → List DelegateSecret → Delegate
set_secrets d x = record d { secrets_gob = some x }

pub need_smt : Delegate → ℤ
need_smt d = string_to_big_int d.need_smt_str

abbrev pub set_status : DelegateStatus → Delegate → Delegate
set_status s d = record d { status = s }

-- A slice that gorm filled: an empty result is no error.
abbrev pub listed {ℓ} : {A : Type ℓ} → Fetch (List A) → Reply (List A)
listed (found l) = reply l
listed not_found = reply []
listed (failed e) = reply_err e

abbrev pub is_error {ℓ} : {A : Type ℓ} → Option A → Bool
is_error none = false
is_error (some e) = true

module _ ⦃p : Platform⦄ where
  -- The gob decoder fails on empty bytes, and the getter panics.
  decode : {A : Type 0} → Option A → M A
  decode none = panic
  decode (some a) = pure a

  pub update_balance_proof : Delegate → M DelegateUpdateBalanceProof
  unfolding decode
  update_balance_proof d = decode d.update_balance_proof_gob

  pub unlocks : Delegate → M (List DelegateUnlock)
  unfolding decode
  unlocks d = decode d.unlocks_gob

  pub secrets : Delegate → M (List DelegateSecret)
  unfolding decode
  secrets d = decode d.secrets_gob

  -- The sum that CalcNeedSMT stores.
  fees : DelegateUpdateBalanceProof → List DelegateUnlock → List DelegateSecret → ℤ → ℤ
  fees proof locks keys smt4_punish =
      (if ltb_ℤ (pos 0) proof.nonce then pos 0 +ℤ settings.smt_update_transfer else pos 0)
      +ℤ pos (length locks) *ℤ settings.smt_unlock
      +ℤ pos (length keys) *ℤ settings.smt_secret
      +ℤ smt4_punish

  pub calc_need_smt : ℤ → Delegate → M Delegate
  unfolding fees
  calc_need_smt smt4_punish d = do
    proof ← update_balance_proof d
    locks ← unlocks d
    keys ← secrets d
    pure (record d { need_smt_str = big_int_to_string (some (fees proof locks keys smt4_punish)) })

  abbrev pub has_key : ℕ → Delegate → Bool
  has_key k d = d.key == k

  pub get_delegate_by_key : ℕ → M (Fetch Delegate)
  get_delegate_by_key k = first delegates (has_key k)

  all_or_panic : Fetch (List Delegate) → M (List Delegate)
  all_or_panic (found ds) = pure ds
  all_or_panic not_found = pure []
  all_or_panic (failed e) = panic

  pub get_all_delegate : M (List Delegate)
  unfolding all_or_panic
  get_all_delegate = do r ← find delegates (λ d. true); all_or_panic r

  pub get_delegate_list_by_channel_identifier : ℕ → M (Reply (List Delegate))
  get_delegate_list_by_channel_identifier c = do
    r ← find delegates (λ d. text_eq d.channel_identifier_str (p.hash_text c))
    pure (listed r)

  -- The delegate in memory changes too.
  pub update_delegate_status : Delegate → DelegateStatus → M (Delegate × Option Text)
  update_delegate_status d s = do
    e ← write delegates (p.gorm.update (has_key d.key) (set_status s))
    pure (set_status s d, e)

  -- UpdateObject of a delegate panics on an error.
  pub update_object : Delegate → M ⊤
  update_object d = do
    e ← write delegates (p.gorm.save (has_key d.key) d)
    if is_error e then panic else pure tt

  -- Delete takes its condition from the primary key. Delegate.Key is one; the ID of a punish or a
  -- dispose is blank here, and DelegateKey is no primary key. Only the last error is kept.
  pub delete_delegate : ℕ → M (Option Text)
  delete_delegate k = in_tx is_error (do
    e ← write delegates (p.gorm.delete (unless_blank false (has_key k)))
    e ← write punishes (p.gorm.delete (unless_blank true (λ r. r.delegate_key == k)))
    write announce_disposes (p.gorm.delete (unless_blank true (λ r. r.delegate_key == k))))

  pub get_delegate_punish_list_by_delegate_key : ℕ → M (Reply (List DelegatePunish))
  get_delegate_punish_list_by_delegate_key k = do
    r ← find punishes (λ x. x.delegate_key == k)
    pure (listed r)

  pub get_delegate_announce_dispose_list_by_delegate_key :
      ℕ → M (Reply (List DelegateAnnounceDispose))
  get_delegate_announce_dispose_list_by_delegate_key k = do
    r ← find announce_disposes (λ x. x.delegate_key == k)
    pure (listed r)
