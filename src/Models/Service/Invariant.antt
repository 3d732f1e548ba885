-- ===== src/Models/Service/Invariant.antt =====
-- The parts of a request are taken in without a change of any account.
use photon_monitoring.Base.{ℕ, ◌≡◌, refl, Option, none, some, List, [], ◌∷◌, Text}
use photon_monitoring.Orm.{Fetch, found, not_found, failed}
use photon_monitoring.Platform.{Platform}
use photon_monitoring.World.{M, World, ◌>>=◌, pure, ret}
use photon_monitoring.World.Preserve.{Preserves, Preserves-bind, preserve_rules}
use photon_monitoring.Models.Rows.{Message, DelegatePunish, DelegateAnnounceDispose}
use photon_monitoring.Models.Dto.{Punish, AnnouceDisposed, Unlock, Secret}
use photon_monitoring.Models.Account.Invariant.{AllSolvent, solvent_rules}
use photon_monitoring.Models.Service.{
  deref, each, get_unlock, get_secret, get_delegate_unlocks, get_delete_secrets, unless_saved,
  add_punish, add_punishes, add_to_punishes, append_delegate_punish, add_dispose, add_disposes,
  add_to_disposes, append_delegate_announce_dispose, secret_hashes,
}

module _ ⦃p : Platform⦄ where
  pub deref-some : {A : Type 0} (a : A) (w : World) → deref (some a) w ≡ (ret a, w)
  unfolding deref
  deref-some a w = refl

  pub deref-Preserves : {A : Type 0} (x : Option A) → Preserves AllSolvent (deref x)
  unfolding deref
  deref-Preserves none = search preserve_rules
  deref-Preserves (some x) = search preserve_rules

  -- What follows a pointer needs to be looked at only where the pointer is not nil.
  pub deref-then-Preserves :
      {A B : Type 0} (x : Option A) (k : A → M B)
      → ((a : A) → x ≡ some a → Preserves AllSolvent (k a))
      → Preserves AllSolvent (deref x >>= k)
  unfolding deref
  deref-then-Preserves none k h = record { at = λ w s. s }
  deref-then-Preserves (some a) k h = h a refl

  each-Preserves :
      {A B : Type 0} (f : A → M B) (xs : List A)
      → ((a : A) → Preserves AllSolvent (f a))
      → Preserves AllSolvent (each f xs)
  unfolding each
  each-Preserves f [] k = search preserve_rules
  each-Preserves f (a ∷ xs) k =
      Preserves-bind (f a) (λ b. each f xs >>= λ bs. pure (b ∷ bs)) (k a)
        (λ b.
          Preserves-bind (each f xs) (λ bs. pure (b ∷ bs)) (each-Preserves f xs k)
            (λ bs. search preserve_rules))

  get_unlock-Preserves : (e : Option Unlock) → Preserves AllSolvent (get_unlock e)
  unfolding get_unlock
  get_unlock-Preserves e = search (preserve_rules, deref-Preserves)

  get_secret-Preserves : (e : Option Secret) → Preserves AllSolvent (get_secret e)
  unfolding get_secret
  get_secret-Preserves e = search (preserve_rules, deref-Preserves)

  pub get_delegate_unlocks-Preserves :
      (us : List (Option Unlock)) → Preserves AllSolvent (get_delegate_unlocks us)
  unfolding get_delegate_unlocks
  get_delegate_unlocks-Preserves us = each-Preserves get_unlock us get_unlock-Preserves

  pub get_delete_secrets-Preserves :
      (ss : List (Option Secret)) → Preserves AllSolvent (get_delete_secrets ss)
  unfolding get_delete_secrets
  get_delete_secrets-Preserves ss = each-Preserves get_secret ss get_secret-Preserves

  unless_saved-Preserves :
      (f : Text → Message) (e : Option Text) (rest : M (Option Message))
      → Preserves AllSolvent rest
      → Preserves AllSolvent (unless_saved f e rest)
  unfolding unless_saved
  unless_saved-Preserves f none rest k = k
  unless_saved-Preserves f (some t) rest k = search preserve_rules

  add_punish-Preserves :
      (k : ℕ) (old : List Text) (x : Punish) (rest : M (Option Message))
      → Preserves AllSolvent rest
      → Preserves AllSolvent (add_punish k old x rest)
  unfolding add_punish
  add_punish-Preserves k old x rest s = search (solvent_rules, unless_saved-Preserves)

  add_punishes-Preserves :
      (k : ℕ) (old : List Text) (xs : List (Option Punish))
      → Preserves AllSolvent (add_punishes k old xs)
  unfolding add_punishes
  add_punishes-Preserves k old [] = search preserve_rules
  add_punishes-Preserves k old (e ∷ es) =
      Preserves-bind (deref e) (λ x. add_punish k old x (add_punishes k old es)) (deref-Preserves e)
        (λ x.
          add_punish-Preserves k old x (add_punishes k old es) (add_punishes-Preserves k old es))

  add_to_punishes-Preserves :
      (k : ℕ) (new : List (Option Punish)) (r : Fetch (List DelegatePunish))
      → Preserves AllSolvent (add_to_punishes k new r)
  unfolding add_to_punishes
  add_to_punishes-Preserves k new (failed t) = search preserve_rules
  add_to_punishes-Preserves k new (found all) = search (preserve_rules, add_punishes-Preserves)
  add_to_punishes-Preserves k [] not_found = search preserve_rules
  add_to_punishes-Preserves k (x ∷ xs) not_found = search (preserve_rules, add_punishes-Preserves)

  pub append_delegate_punish-Preserves :
      (k : ℕ) (new : List (Option Punish)) → Preserves AllSolvent (append_delegate_punish k new)
  unfolding append_delegate_punish
  append_delegate_punish-Preserves k new = search (preserve_rules, add_to_punishes-Preserves)

  add_dispose-Preserves :
      (k : ℕ) (old : List Text) (x : AnnouceDisposed) (rest : M (Option Message))
      → Preserves AllSolvent rest
      → Preserves AllSolvent (add_dispose k old x rest)
  unfolding add_dispose
  add_dispose-Preserves k old x rest s = search (solvent_rules, unless_saved-Preserves)

  add_disposes-Preserves :
      (k : ℕ) (old : List Text) (xs : List (Option AnnouceDisposed))
      → Preserves AllSolvent (add_disposes k old xs)
  unfolding add_disposes
  add_disposes-Preserves k old [] = search preserve_rules
  add_disposes-Preserves k old (e ∷ es) =
      Preserves-bind (deref e) (λ x. add_dispose k old x (add_disposes k old es))
        (deref-Preserves e)
        (λ x.
          add_dispose-Preserves k old x (add_disposes k old es) (add_disposes-Preserves k old es))

  add_to_disposes-Preserves :
      (k : ℕ) (new : List (Option AnnouceDisposed)) (r : Fetch (List DelegateAnnounceDispose))
      → Preserves AllSolvent (add_to_disposes k new r)
  unfolding add_to_disposes
  add_to_disposes-Preserves k new (failed t) = search preserve_rules
  add_to_disposes-Preserves k new (found all) = add_disposes-Preserves k (secret_hashes all) new
  add_to_disposes-Preserves k new not_found = add_disposes-Preserves k [] new

  pub append_delegate_announce_dispose-Preserves :
      (k : ℕ) (new : List (Option AnnouceDisposed))
      → Preserves AllSolvent (append_delegate_announce_dispose k new)
  unfolding append_delegate_announce_dispose
  append_delegate_announce_dispose-Preserves k [] = search preserve_rules
  append_delegate_announce_dispose-Preserves k (x ∷ xs) =
      search (preserve_rules, add_to_disposes-Preserves)
