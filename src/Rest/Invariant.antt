-- ===== src/Rest/Invariant.antt =====
-- The handlers keep every account solvent, with a verifier that leaves the database as it is.
use photon_monitoring.Base.{ℕ, Option, none, some, List, Text}
use photon_monitoring.Orm.{IsDocumented, Fetch, found, not_found, failed}
use photon_monitoring.Platform.{Platform, Reply, reply, reply_err}
use photon_monitoring.World.Preserve.{Preserves}
use photon_monitoring.Models.Rows.{Message, Delegate, DelegatePunish, DelegateAnnounceDispose}
use photon_monitoring.Models.Dto.{ChannelFor3rd}
use photon_monitoring.Models.Account.Invariant.{AllSolvent, solvent_rules}
use photon_monitoring.Models.Delegate.Invariant.{delegate_rules}
use photon_monitoring.Models.Receive.Invariant.{receive_delegate-Preserves}
use photon_monitoring.Rest.{
  DelegateVerifier, answer_received, answer_verified, verified, answer_decoded, delegate,
  answer_disposes, answer_punishes, answer_delegate, tx, fee,
}

module _ ⦃p : Platform⦄ where
  -- What the database needs of a verifier.
  pub record Harmless (v : DelegateVerifier) : Type 0 where
    pub verify_delegate-Preserves :
        (c : ChannelFor3rd) (a : ℕ) → Preserves AllSolvent (v.verify_delegate c a)

  answer_received-Preserves :
      (a : ℕ) (e : Option Message) → Preserves AllSolvent (answer_received a e)
  unfolding answer_received
  answer_received-Preserves a none = search solvent_rules
  answer_received-Preserves a (some e) = search solvent_rules

  answer_disposes-Preserves :
      (a : ℕ) (d : Delegate) (dps : List DelegatePunish) (r : Reply (List DelegateAnnounceDispose))
      → Preserves AllSolvent (answer_disposes a d dps r)
  unfolding answer_disposes
  answer_disposes-Preserves a d dps (reply_err e) = search solvent_rules
  answer_disposes-Preserves a d dps (reply das) = search (solvent_rules, delegate_rules)

  answer_punishes-Preserves :
      (a k : ℕ) (d : Delegate) (r : Reply (List DelegatePunish))
      → Preserves AllSolvent (answer_punishes a k d r)
  unfolding answer_punishes
  answer_punishes-Preserves a k d (reply_err e) = search solvent_rules
  answer_punishes-Preserves a k d (reply dps) =
      search (solvent_rules, delegate_rules, answer_disposes-Preserves)

  answer_delegate-Preserves :
      (a k : ℕ) (r : Fetch Delegate) → Preserves AllSolvent (answer_delegate a k r)
  unfolding answer_delegate
  answer_delegate-Preserves a k not_found = search solvent_rules
  answer_delegate-Preserves a k (failed e) = search solvent_rules
  answer_delegate-Preserves a k (found d) =
      search (solvent_rules, delegate_rules, answer_punishes-Preserves)

  pub tx-Preserves : (s t : Text) → Preserves AllSolvent (tx s t)
  unfolding tx
  tx-Preserves s t = search (solvent_rules, delegate_rules, answer_delegate-Preserves)

  pub fee-Preserves : (s : Text) → Preserves AllSolvent (fee s)
  unfolding fee
  fee-Preserves s = search solvent_rules

module _ ⦃p : Platform⦄ (g : IsDocumented p.gorm) where
  answer_verified-Preserves :
      (a : ℕ) (r : Option Message × ChannelFor3rd) → Preserves AllSolvent (answer_verified a r)
  unfolding answer_verified
  answer_verified-Preserves a (some e, req) = search solvent_rules
  answer_verified-Preserves a (none, req) =
      search (solvent_rules, receive_delegate-Preserves g, answer_received-Preserves)

  module _ (v : DelegateVerifier) (harmless : Harmless v) where
    answer_decoded-Preserves :
        (a : ℕ) (r : Reply ChannelFor3rd) → Preserves AllSolvent (answer_decoded (some v) a r)
    unfolding answer_decoded verified
    answer_decoded-Preserves a (reply_err e) = search solvent_rules
    answer_decoded-Preserves a (reply req) =
        search (solvent_rules, harmless.verify_delegate-Preserves, answer_verified-Preserves)

    pub delegate-Preserves :
        (s : Text) (r : Reply ChannelFor3rd) → Preserves AllSolvent (delegate (some v) s r)
    unfolding delegate
    delegate-Preserves s r = search (solvent_rules, answer_decoded-Preserves)
