-- ===== src/Models/Service/Locks.antt =====
-- What GetDelegateUnlocks makes of the unlocks of a request, as a function of them alone.
use photon_monitoring.Base.{◌≡◌, refl, Option-cases, inl, inr, Option, none, some, List, [], ◌∷◌}
use photon_monitoring.Utils.{big_int_to_string}
use photon_monitoring.Platform.{Platform}
use photon_monitoring.World.{World, Outcome, ret, panicked}
use photon_monitoring.Models.Rows.{DelegateUnlock}
use photon_monitoring.Models.Dto.{Lock, Unlock}
use photon_monitoring.Models.Service.{
  deref, each, get_unlock, delegate_unlock, get_delegate_unlocks,
}

-- A row before the others; nothing, if it or they are missing.
abbrev before : Option DelegateUnlock → Option (List DelegateUnlock) → Option (List DelegateUnlock)
before (some r) (some rs) = some (r ∷ rs)
before (some r) none = none
before none rs = none

-- A panic, where there is nothing.
abbrev pub or_panicked : {A : Type 0} → Option A → Outcome A
or_panicked none = panicked
or_panicked (some a) = ret a

module _ ⦃p : Platform⦄ where
  abbrev row_of : Unlock → Option Lock → Option DelegateUnlock
  row_of u none = none
  row_of u (some l) = some (record {
    lock_secret_hash_str = p.hash_text l.lock_secret_hash;
    amount_str = big_int_to_string l.amount;
    expiration = l.expiration;
    merkle_proof = u.merkle_proof;
    signature = u.signature;
  })

  -- The rows of the unlocks of a request; nothing, if one of them or its lock is null.
  unfoldable pub rows_of : List (Option Unlock) → Option (List DelegateUnlock)
  rows_of [] = some []
  rows_of (none ∷ us) = none
  rows_of (some u ∷ us) = before (row_of u u.lock) (rows_of us)

  pub get_delegate_unlocks-rows_of :
      (us : List (Option Unlock)) (w : World)
      → get_delegate_unlocks us w ≡ (or_panicked (rows_of us), w)
  unfolding get_delegate_unlocks each get_unlock deref delegate_unlock rows_of
  get_delegate_unlocks-rows_of [] w = refl
  get_delegate_unlocks-rows_of (none ∷ us) w = refl
  get_delegate_unlocks-rows_of (some u ∷ us) w = elim (Option-cases u.lock) [
    | inl null ↦ rw null refl
    | inr (l, e) ↦ elim (Option-cases (rows_of us)) [
      | inl null ↦ rw (e, get_delegate_unlocks-rows_of us w, null) refl
      | inr (rs, e') ↦ rw (e, get_delegate_unlocks-rows_of us w, e') refl
    ]
  ]
