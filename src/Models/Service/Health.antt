-- ===== src/Models/Service/Health.antt =====
-- The parts of a request are taken in without harm to the database.
use photon_monitoring.Base.{ℕ, Option, none, some, List, [], ◌∷◌, Text}
use photon_monitoring.Orm.{IsDocumented, Fetch, found, not_found, failed}
use photon_monitoring.Platform.{Platform}
use photon_monitoring.World.{M, ◌>>=◌, pure}
use photon_monitoring.World.Health.{
  IsSafe, IsSafe-bind, safe_rules, IsSafe-create_punish, IsSafe-create_dispose,
}
use photon_monitoring.Models.Rows.{DelegatePunish, DelegateAnnounceDispose, Message}
use photon_monitoring.Models.Dto.{Punish, AnnouceDisposed, Unlock, Secret}
use photon_monitoring.Models.Service.{
  deref, each, get_unlock, get_secret, get_delegate_unlocks, get_delete_secrets, unless_saved,
  add_punish, add_punishes, add_to_punishes, append_delegate_punish, add_dispose, add_disposes,
  add_to_disposes, append_delegate_announce_dispose, secret_hashes,
}

module _ ⦃p : Platform⦄ (g : IsDocumented p.gorm) where
  deref-IsSafe : {A : Type 0} (x : Option A) → IsSafe (deref x)
  unfolding deref
  deref-IsSafe none = search safe_rules
  deref-IsSafe (some x) = search safe_rules

  each-IsSafe :
      {A B : Type 0} (f : A → M B) (xs : List A) → ((a : A) → IsSafe (f a)) → IsSafe (each f xs)
  unfolding each
  each-IsSafe f [] k = search safe_rules
  each-IsSafe f (a ∷ xs) k =
      IsSafe-bind (f a) (λ b. each f xs >>= λ bs. pure (b ∷ bs)) (k a)
        (λ b.
          IsSafe-bind (each f xs) (λ bs. pure (b ∷ bs)) (each-IsSafe f xs k)
            (λ bs. search safe_rules))

  get_unlock-IsSafe : (e : Option Unlock) → IsSafe (get_unlock e)
  unfolding get_unlock
  get_unlock-IsSafe e = search (safe_rules, deref-IsSafe)

  get_secret-IsSafe : (e : Option Secret) → IsSafe (get_secret e)
  unfolding get_secret
  get_secret-IsSafe e = search (safe_rules, deref-IsSafe)

  pub get_delegate_unlocks-IsSafe : (us : List (Option Unlock)) → IsSafe (get_delegate_unlocks us)
  unfolding get_delegate_unlocks
  get_delegate_unlocks-IsSafe us = each-IsSafe get_unlock us get_unlock-IsSafe

  pub get_delete_secrets-IsSafe : (ss : List (Option Secret)) → IsSafe (get_delete_secrets ss)
  unfolding get_delete_secrets
  get_delete_secrets-IsSafe ss = each-IsSafe get_secret ss get_secret-IsSafe

  unless_saved-IsSafe :
      (f : Text → Message) (e : Option Text) (rest : M (Option Message))
      → IsSafe rest
      → IsSafe (unless_saved f e rest)
  unfolding unless_saved
  unless_saved-IsSafe f none rest k = k
  unless_saved-IsSafe f (some t) rest k = search safe_rules

  add_punish-IsSafe :
      (k : ℕ) (old : List Text) (x : Punish) (rest : M (Option Message))
      → IsSafe rest
      → IsSafe (add_punish k old x rest)
  unfolding add_punish
  add_punish-IsSafe k old x rest s =
      search (safe_rules, IsSafe-create_punish g, unless_saved-IsSafe)

  add_punishes-IsSafe :
      (k : ℕ) (old : List Text) (xs : List (Option Punish)) → IsSafe (add_punishes k old xs)
  unfolding add_punishes
  add_punishes-IsSafe k old [] = search safe_rules
  add_punishes-IsSafe k old (e ∷ es) =
      IsSafe-bind (deref e) (λ x. add_punish k old x (add_punishes k old es)) (deref-IsSafe e)
        (λ x. add_punish-IsSafe k old x (add_punishes k old es) (add_punishes-IsSafe k old es))

  add_to_punishes-IsSafe :
      (k : ℕ) (new : List (Option Punish)) (r : Fetch (List DelegatePunish))
      → IsSafe (add_to_punishes k new r)
  unfolding add_to_punishes
  add_to_punishes-IsSafe k new (failed t) = search safe_rules
  add_to_punishes-IsSafe k new (found all) = search (safe_rules, add_punishes-IsSafe)
  add_to_punishes-IsSafe k [] not_found = search safe_rules
  add_to_punishes-IsSafe k (x ∷ xs) not_found = search (safe_rules, add_punishes-IsSafe)

  pub append_delegate_punish-IsSafe :
      (k : ℕ) (new : List (Option Punish)) → IsSafe (append_delegate_punish k new)
  unfolding append_delegate_punish
  append_delegate_punish-IsSafe k new = search (safe_rules, add_to_punishes-IsSafe)

  add_dispose-IsSafe :
      (k : ℕ) (old : List Text) (x : AnnouceDisposed) (rest : M (Option Message))
      → IsSafe rest
      → IsSafe (add_dispose k old x rest)
  unfolding add_dispose
  add_dispose-IsSafe k old x rest s =
      search (safe_rules, IsSafe-create_dispose g, unless_saved-IsSafe)

  add_disposes-IsSafe :
      (k : ℕ) (old : List Text) (xs : List (Option AnnouceDisposed))
      → IsSafe (add_disposes k old xs)
  unfolding add_disposes
  add_disposes-IsSafe k old [] = search safe_rules
  add_disposes-IsSafe k old (e ∷ es) =
      IsSafe-bind (deref e) (λ x. add_dispose k old x (add_disposes k old es)) (deref-IsSafe e)
        (λ x. add_dispose-IsSafe k old x (add_disposes k old es) (add_disposes-IsSafe k old es))

  add_to_disposes-IsSafe :
      (k : ℕ) (new : List (Option AnnouceDisposed)) (r : Fetch (List DelegateAnnounceDispose))
      → IsSafe (add_to_disposes k new r)
  unfolding add_to_disposes
  add_to_disposes-IsSafe k new (failed t) = search safe_rules
  add_to_disposes-IsSafe k new (found all) = add_disposes-IsSafe k (secret_hashes all) new
  add_to_disposes-IsSafe k new not_found = add_disposes-IsSafe k [] new

  pub append_delegate_announce_dispose-IsSafe :
      (k : ℕ) (new : List (Option AnnouceDisposed))
      → IsSafe (append_delegate_announce_dispose k new)
  unfolding append_delegate_announce_dispose
  append_delegate_announce_dispose-IsSafe k [] = search safe_rules
  append_delegate_announce_dispose-IsSafe k (x ∷ xs) = search (safe_rules, add_to_disposes-IsSafe)
