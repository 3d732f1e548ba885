-- ===== src/Models/Service.antt =====
-- models/service.go, the parts of a request that are only appended: punishes and disposes; and
-- models/dto.go, which turns the parts of a request into what the rows hold.
pub mod Health
pub mod Append
pub mod Locks
pub mod Invariant
use photon_monitoring.Base.{
  ℕ, ℤ, pos, Bool, true, false, ◌&&◌, ◌||◌, not, Option, none, some, List, [], ◌∷◌, ◌++◌, Text, ⊤,
  ltb_ℤ, leb_ℤ, eqb_ℤ, ◌+ℤ◌, ◌-ℤ◌, text_eq, ◌==◌, length, if◌then◌else◌,
}
use photon_monitoring.Orm.{Fetch, found, not_found, failed}
use photon_monitoring.Platform.{Platform, settings, Reply, reply, reply_err}
use photon_monitoring.Utils.{big_int_to_string}
use photon_monitoring.World.{
  M, World, ◌>>=◌, ◌>>◌, pure, panic, first, find, write, outer, in_tx, delegates, punishes,
  announce_disposes, accounts,
}
use photon_monitoring.Models.Rows.{
  Message, empty_text, db_err, find_punish_err, add_punish_err, find_dispose_err, add_dispose_err,
  find_delegate_err, open_block_not_equal, only_newer_nonce, update_delegate_err, Delegate,
  DelegateStatus, init, DelegatePunish, DelegateAnnounceDispose, DelegateUpdateBalanceProof,
  DelegateUnlock, DelegateSecret,
}
use photon_monitoring.Models.Dto.{ChannelFor3rd, Punish, AnnouceDisposed, Unlock, Secret, Lock}
use photon_monitoring.Models.Account.{account_get_account, to_serialization, has_address}
use photon_monitoring.Models.Delegate.{
  build_delegate_key, set_update_balance_proof, set_unlocks, set_secrets, need_smt, is_error,
  has_key, update_balance_proof, calc_need_smt,
}
use photon_monitoring.Models.Monitor.{add_delegate_monitor}
use photon_monitoring.Models.BlockNumber.{get_latest_block_number}

unfoldable pub is_init : DelegateStatus → Bool
is_init init = true
is_init _ = false

-- `_, exist := allMap[s]`, for the map of the texts of the rows that were there before.
exists_text : Text → List Text → Bool
exists_text s [] = false
exists_text s (t ∷ ts) = text_eq t s || exists_text s ts

-- The text of gorm.ErrRecordNotFound.
abbrev record_not_found : Text
record_not_found =
    b'r' ∷ b'e' ∷ b'c' ∷ b'o' ∷ b'r' ∷ b'd' ∷ b' ' ∷ b'n' ∷ b'o' ∷ b't' ∷ b' ' ∷ b'f' ∷ b'o' ∷ b'u'
    ∷ b'n' ∷ b'd' ∷ []

module _ ⦃p : Platform⦄ where
  -- A result and an error.
  abbrev pub Fallible : Type 0 → Type 0
  Fallible A = M (Option Message × A)

  -- A nil pointer is dereferenced.
  pub deref : {A : Type 0} → Option A → M A
  deref none = panic
  deref (some a) = pure a

  -- GetDelegateUpdateBalanceProof, of dto.go
  pub get_delegate_update_balance_proof : ChannelFor3rd → DelegateUpdateBalanceProof
  get_delegate_update_balance_proof c = record {
    nonce = c.update_transfer.nonce;
    transfer_amount_str = big_int_to_string c.update_transfer.transfer_amount;
    locksroot_str = p.hash_text c.update_transfer.locksroot;
    extra_hash_str = p.hash_text c.update_transfer.extra_hash;
    closing_signature = c.update_transfer.closing_signature;
    non_closing_signature = c.update_transfer.non_closing_signature;
  }

  delegate_unlock : Unlock → Lock → DelegateUnlock
  delegate_unlock u l = record {
    lock_secret_hash_str = p.hash_text l.lock_secret_hash;
    amount_str = big_int_to_string l.amount;
    expiration = l.expiration;
    merkle_proof = u.merkle_proof;
    signature = u.signature;
  }

  -- The loops of GetDelegateUnlocks and GetDeleteSecrets: one round, and all of them.
  get_unlock : Option Unlock → M DelegateUnlock
  unfolding deref delegate_unlock
  get_unlock e = do u ← deref e; l ← deref u.lock; pure (delegate_unlock u l)

  get_secret : Option Secret → M DelegateSecret
  unfolding deref
  get_secret e = do
    s ← deref e
    pure (record { secret = p.hash_text s.secret; register_block = s.register_block })

  pub each : {A B : Type 0} → (A → M B) → List A → M (List B)
  each f [] = pure []
  each f (a ∷ xs) = do b ← f a; bs ← each f xs; pure (b ∷ bs)

  -- GetDelegateUnlocks, of dto.go
  pub get_delegate_unlocks : List (Option Unlock) → M (List DelegateUnlock)
  unfolding each get_unlock
  get_delegate_unlocks us = each get_unlock us

  -- GetDeleteSecrets, of dto.go
  pub get_delete_secrets : List (Option Secret) → M (List DelegateSecret)
  unfolding each get_secret
  get_delete_secrets ss = each get_secret ss

  pub punish_row : ℕ → Punish → DelegatePunish
  punish_row k x = record {
    lock_hash_str = p.hash_text x.lock_hash;
    delegate_key = k;
    additional_hash_str = p.hash_text x.additional_hash;
    signature = x.signature;
  }

  -- The error of a save, which ends the loop, or the rounds that are left.
  unless_saved : (Text → Message) → Option Text → M (Option Message) → M (Option Message)
  unless_saved f none rest = rest
  unless_saved f (some t) rest = pure (some (f t))

  add_punish : ℕ → List Text → Punish → M (Option Message) → M (Option Message)
  unfolding punish_row exists_text unless_saved
  add_punish k old x rest = if exists_text (p.hash_text x.lock_hash) old then rest else (do
    err ← write punishes (p.gorm.create (punish_row k x))
    unless_saved add_punish_err err rest)

  -- The second loop of appendDelegatePunish, over the new punishes.
  add_punishes : ℕ → List Text → List (Option Punish) → M (Option Message)
  unfolding deref add_punish
  add_punishes k old [] = pure none
  add_punishes k old (e ∷ es) = do x ← deref e; add_punish k old x (add_punishes k old es)

  punish_fee : List DelegatePunish → List (Option Punish) → ℤ
  punish_fee [] [] = pos 0
  punish_fee _ _ = pos 0 +ℤ settings.smt_punish

  pub lock_hashes : List DelegatePunish → List Text
  lock_hashes [] = []
  lock_hashes (x ∷ xs) = x.lock_hash_str ∷ lock_hashes xs

  -- Where no row is found and none is new, the error of the query is the one that is returned.
  add_to_punishes : ℕ → List (Option Punish) → Fetch (List DelegatePunish) → Fallible ℤ
  unfolding add_punishes punish_fee lock_hashes
  add_to_punishes k new (failed t) = pure (some (find_punish_err t), pos 0)
  add_to_punishes k new (found all) = do
    err ← add_punishes k (lock_hashes all) new
    pure (err, if is_error err then pos 0 else punish_fee all new)
  add_to_punishes k [] not_found = pure (some (db_err record_not_found), pos 0)
  add_to_punishes k (n ∷ ns) not_found = do
    err ← add_punishes k [] (n ∷ ns)
    pure (err, if is_error err then pos 0 else punish_fee [] (n ∷ ns))

  pub append_delegate_punish : ℕ → List (Option Punish) → Fallible ℤ
  unfolding add_to_punishes
  append_delegate_punish k new = do
    r ← find punishes (λ x. x.delegate_key == k)
    add_to_punishes k new r

  dispose_row : ℕ → AnnouceDisposed → DelegateAnnounceDispose
  dispose_row k x = record {
    lock_secret_hash_str = p.hash_text x.lock_secret_hash;
    delegate_key = k;
  }

  add_dispose : ℕ → List Text → AnnouceDisposed → M (Option Message) → M (Option Message)
  unfolding dispose_row exists_text unless_saved
  add_dispose k old x rest = if exists_text (p.hash_text x.lock_secret_hash) old then rest else (do
    err ← write announce_disposes (p.gorm.create (dispose_row k x))
    unless_saved add_dispose_err err rest)

  -- The second loop of appendDelegateAnnounceDispose.
  add_disposes : ℕ → List Text → List (Option AnnouceDisposed) → M (Option Message)
  unfolding deref add_dispose
  add_disposes k old [] = pure none
  add_disposes k old (e ∷ es) = do x ← deref e; add_dispose k old x (add_disposes k old es)

  secret_hashes : List DelegateAnnounceDispose → List Text
  secret_hashes [] = []
  secret_hashes (x ∷ xs) = x.lock_secret_hash_str ∷ secret_hashes xs

  add_to_disposes :
      ℕ → List (Option AnnouceDisposed) → Fetch (List DelegateAnnounceDispose) → M (Option Message)
  unfolding add_disposes secret_hashes
  add_to_disposes k new (failed t) = pure (some (find_dispose_err t))
  add_to_disposes k new (found all) = add_disposes k (secret_hashes all) new
  add_to_disposes k new not_found = add_disposes k [] new

  pub append_delegate_announce_dispose : ℕ → List (Option AnnouceDisposed) → M (Option Message)
  unfolding add_to_disposes
  append_delegate_announce_dispose k [] = pure none
  append_delegate_announce_dispose k (n ∷ ns) = do
    r ← find announce_disposes (λ x. x.delegate_key == k)
    add_to_disposes k (n ∷ ns) r
