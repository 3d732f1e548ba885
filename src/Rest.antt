-- ===== src/Rest.antt =====
-- rest/delegate.go and rest/query.go: the handlers of the HTTP interface, from the parameters of
-- the path and the decoded body to the response. The router, JSON and the sending are libraries.
pub mod Stored
pub mod Invariant
use photon_monitoring.Base.{
  ℕ, ℤ, Bool, ◌||◌, Option, none, some, List, Text, ◌==◌, text_eq, if◌then◌else◌,
}
use photon_monitoring.Orm.{Fetch, found, not_found, failed}
use photon_monitoring.Platform.{Platform, Reply, reply, reply_err}
use photon_monitoring.World.{M, World, ◌>>=◌, ◌>>◌, pure}
use photon_monitoring.Models.Rows.{
  Message, empty_text, call_err, empty_delegator_err, arg_err, query_err, list_err, Delegate,
  DelegateUpdateBalanceProof, DelegateUnlock, DelegatePunish, DelegateAnnounceDispose,
}
use photon_monitoring.Models.Dto.{ChannelFor3rd}
use photon_monitoring.Models.Account.{
  account_get_account, account_available, account_is_balance_enough,
}
use photon_monitoring.Models.Delegate.{
  build_delegate_key, get_delegate_by_key, update_balance_proof, unlocks,
  get_delegate_punish_list_by_delegate_key, get_delegate_announce_dispose_list_by_delegate_key,
}
use photon_monitoring.Models.Receive.{receive_delegate}

-- The constants of delegate.go, as they are numbered.
abbrev pub delegate_error : ℕ
delegate_error = 1

abbrev pub delegate_success_but_not_enough_balance : ℕ
delegate_success_but_not_enough_balance = 2

abbrev pub delegate_success : ℕ
delegate_success = 3

pub record DelegateResponse : Type 0 where
  pub status : ℕ
  pub error : Message

pub record DelegateInfoResponse : Type 0 where
  pub delegate : Delegate
  pub delegate_update_balance_proof : DelegateUpdateBalanceProof
  pub delegate_unlocks : List DelegateUnlock
  pub delegate_punishes : List DelegatePunish
  pub delegate_announce_dispose : List DelegateAnnounceDispose

-- dto.APIResponse of Photon: an error with its code, or a code and the data.
pub data ApiResponse : Type 0 where
  error_response : ℕ → Message → ApiResponse
  info_response : ℕ → DelegateInfoResponse → ApiResponse

pub record FeeResponse : Type 0 where
  pub available : ℤ
  pub need_smt : ℤ

abbrev pub refuse : Message → DelegateResponse
refuse e = record { status = delegate_error; error = e }

abbrev pub refuse_api : Message → ApiResponse
refuse_api e = error_response delegate_error e

module _ ⦃p : Platform⦄ where
  -- verifier.DelegateVerifier: the error of a check, and the request as the check leaves it
  pub record DelegateVerifier : Type 0 where
    pub verify_delegate : ChannelFor3rd → ℕ → M (Option Message × ChannelFor3rd)

  enough_code : Bool → ℕ
  enough_code enough = if enough then delegate_success else delegate_success_but_not_enough_balance

  -- The end of Delegate, after ReceiveDelegate.
  answer_received : ℕ → Option Message → M DelegateResponse
  unfolding enough_code
  answer_received delegator (some e) = pure (refuse e)
  answer_received delegator none = do
    enough ← account_is_balance_enough delegator
    pure (record { status = enough_code enough; error = empty_text })

  -- Delegate from its call of the verifier on.
  answer_verified : ℕ → Option Message × ChannelFor3rd → M DelegateResponse
  unfolding answer_received
  answer_verified delegator (some e, req) = pure (refuse e)
  answer_verified delegator (none, req) = do
    e ← receive_delegate req delegator
    answer_received delegator e

  -- A verifier that is nil is passed over.
  verified : Option DelegateVerifier → ChannelFor3rd → ℕ → M (Option Message × ChannelFor3rd)
  verified none req delegator = pure (none, req)
  verified (some v) req delegator = v.verify_delegate req delegator

  answer_decoded : Option DelegateVerifier → ℕ → Reply ChannelFor3rd → M DelegateResponse
  unfolding answer_verified verified
  answer_decoded verify delegator (reply_err e) = pure (refuse (call_err e))
  answer_decoded verify delegator (reply req) = do
    r ← verified verify req delegator
    answer_verified delegator r

  -- Delegate, with the path's parameter and the decoded body
  pub delegate : Option DelegateVerifier → Text → Reply ChannelFor3rd → M DelegateResponse
  unfolding answer_decoded
  delegate verify delegate_str payload =
      let delegator = p.text_address delegate_str in
      if delegator == 0
      then pure (refuse empty_delegator_err)
      else answer_decoded verify delegator payload

  answer_disposes :
      ℕ → Delegate → List DelegatePunish → Reply (List DelegateAnnounceDispose) → M ApiResponse
  unfolding enough_code
  answer_disposes delegator d dps (reply_err e) = pure (refuse_api (list_err e))
  answer_disposes delegator d dps (reply das) = do
    proof ← update_balance_proof d
    us ← unlocks d
    enough ← account_is_balance_enough delegator
    pure (
        info_response (enough_code enough) (record {
          delegate = d;
          delegate_update_balance_proof = proof;
          delegate_unlocks = us;
          delegate_punishes = dps;
          delegate_announce_dispose = das;
        }))

  answer_punishes : ℕ → ℕ → Delegate → Reply (List DelegatePunish) → M ApiResponse
  unfolding answer_disposes
  answer_punishes delegator k d (reply_err e) = pure (refuse_api (list_err e))
  answer_punishes delegator k d (reply dps) = do
    das ← get_delegate_announce_dispose_list_by_delegate_key k
    answer_disposes delegator d dps das

  answer_delegate : ℕ → ℕ → Fetch Delegate → M ApiResponse
  unfolding answer_punishes
  answer_delegate delegator k not_found = pure (refuse_api (query_err none))
  answer_delegate delegator k (failed e) = pure (refuse_api (query_err (some e)))
  answer_delegate delegator k (found d) = do
    dps ← get_delegate_punish_list_by_delegate_key k
    answer_punishes delegator k d dps

  -- Tx, with the two parameters of the path
  pub tx : Text → Text → M ApiResponse
  unfolding answer_delegate
  tx delegator_str channel =
      let delegator = p.text_address delegator_str in
      let k = build_delegate_key (p.text_hash channel) delegator in
      if delegator == 0 || text_eq channel (p.address_text 0)
      then pure (refuse_api arg_err)
      else (do d ← get_delegate_by_key k; answer_delegate delegator k d)

  -- Fee, with the parameter of the path
  pub fee : Text → M FeeResponse
  fee delegator_str = do
    a ← account_get_account (p.text_address delegator_str)
    pure (record { available = account_available a; need_smt = a.need_smt })
