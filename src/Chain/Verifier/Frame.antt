-- ===== src/Chain/Verifier/Frame.antt =====
-- VerifyDelegate writes nothing: it is a verifier that the interface may call at any time.
use photon_monitoring.Base.{ℕ, ℤ, pos, refl, Option, none, some, Text}
use photon_monitoring.Platform.{Platform, ChannelInfo, Reply, reply, reply_err}
use photon_monitoring.World.{World, Outcome, outer}
use photon_monitoring.World.Frame.{Keeps, Keeps-bind, Keeps-if, Keeps-pure, keeps_rules}
use photon_monitoring.Models.Rows.{Message}
use photon_monitoring.Models.Monitor.{wrap64}
use photon_monitoring.Models.Dto.{ChannelFor3rd}
use photon_monitoring.Models.Account.Invariant.{Preserves-kept, outer-kept}
use photon_monitoring.Chain.Verifier.{
  lift, accept, verify_parts, on_channel, on_network, verify_delegate,
}
use photon_monitoring.Rest.{DelegateVerifier}
use photon_monitoring.Rest.Invariant.{Harmless}

module _ ⦃p : Platform⦄ {B : Type 0} {f : World → B}
    (ko : (A : Type 0) (h : p.Outside → A × p.Outside) → Keeps f (outer h)) where
  lift-Keeps : {A : Type 0} (r : Outcome A) → Keeps f (lift r)
  lift-Keeps r = record { at = λ w. refl }

  accept-Keeps : (c : ChannelFor3rd) (n : ℤ) (e : Option Message) → Keeps f (accept c n e)
  accept-Keeps c n none = search keeps_rules
  accept-Keeps c n (some e) = search keeps_rules

  on_channel-Keeps :
      (c : ChannelFor3rd) (a : ℕ) (r : Reply ChannelInfo) → Keeps f (on_channel c a r)
  unfolding on_channel
  on_channel-Keeps c a (reply_err e) = search keeps_rules
  on_channel-Keeps c a (reply i) = Keeps-if _ _ _ (Keeps-pure _) (
      Keeps-bind (lift (verify_parts c a)) _ (lift-Keeps (verify_parts c a))
        (λ e. accept-Keeps c (wrap64 (pos i.settle_block_number)) e))

  on_network-Keeps : (c : ChannelFor3rd) (a : ℕ) (e : Option Text) → Keeps f (on_network c a e)
  unfolding on_network
  on_network-Keeps c a (some e) = search keeps_rules
  on_network-Keeps c a none = search (keeps_rules, on_channel-Keeps)

  -- What VerifyDelegate keeps is all but the state outside.
  pub verify_delegate-Keeps : (c : ChannelFor3rd) (a : ℕ) → Keeps f (verify_delegate c a)
  unfolding verify_delegate
  verify_delegate-Keeps c a = search (keeps_rules, on_network-Keeps)

-- VerifyDelegate as the interface gets it from main.go.
abbrev pub chain_verifier : ⦃p : Platform⦄ → DelegateVerifier
chain_verifier = record { verify_delegate = verify_delegate }

pub chain_verifier-Harmless : ⦃p : Platform⦄ → Harmless chain_verifier
chain_verifier-Harmless = record {
  verify_delegate-Preserves =
      λ c a. Preserves-kept (verify_delegate c a) (verify_delegate-Keeps outer-kept c a);
}
