-- ===== src/Adjudicator/Requests.antt =====
-- `Register` and `Withdraw` of channel/adjudicator/adjudicator.go: which request of the client they make.
use perun_ckb_backend.Prelude.{ℕ, Bool, List, [], ◌∷◌, Result, ok, err, if◌then◌else◌}
use perun_ckb_backend.Prelude.GoMap.{GoMap}
use perun_ckb_backend.Perun.{State, Params, SubAlloc}
use perun_ckb_backend.Client.{ClientError, caller}
use perun_ckb_backend.CkbClient.{CkbClient}

pub data RequestError : Type 0 where
  client_error : ClientError → RequestError
  many_virtual_channels panic : RequestError

-- `channel.SignedState`
pub record SignedState : Type 0 where
  pub params : Params
  pub state : State
  pub sigs : List (List ℕ)

-- `channel.AdjudicatorReq`, with the state and the signatures of its transaction.
pub record AdjudicatorReq : Type 0 where
  pub params : Params
  pub state : State
  pub sigs : List (List ℕ)
  pub secondary : Bool

unfoldable pub passed : Result ClientError (Unit {0}) → Result RequestError (Unit {0})
passed (ok done) = ok done
passed (err e) = err (client_error e)

module _ {S : Type 0} (client : CkbClient S) where
  -- The call of `DisputeVC` in `Register`; the index map is that of the first locked allocation, and
  -- without one it panics.
  unfoldable pub register_virtual :
      AdjudicatorReq → SignedState → List SubAlloc → S → Result RequestError (Unit {0}) × S
  unfolding passed
  register_virtual req vc [] s = (err panic, s)
  register_virtual req vc (l ∷ locked) s =
      let (r, t) =
        client.dispute_vc caller
          (record {
            vc_id = vc.state.id;
            parent_id = req.state.id;
            vc_state = vc.state;
            parent_state = req.state;
            vc_params = vc.params;
            vc_sigs = vc.sigs;
            parent_sigs = req.sigs;
            index_map = l.index_map;
          })
          s in
      (passed r, t)

  -- `Register`: with virtual channels, the first one is disputed together with the channel.
  unfoldable pub register :
      AdjudicatorReq → List SignedState → S → Result RequestError (Unit {0}) × S
  unfolding register_virtual passed
  register req [] s =
      let (r, t) = client.dispute caller req.state.id req.state req.sigs req.params s in
      (passed r, t)
  register req (vc ∷ rest) s = register_virtual req vc req.state.locked s

  -- The call of `ForceCloseWithVC` in `Withdraw`.
  unfoldable pub withdraw_virtual :
      AdjudicatorReq → SignedState → List SubAlloc → S → Result RequestError (Unit {0}) × S
  unfolding passed
  withdraw_virtual req vc [] s = (err panic, s)
  withdraw_virtual req vc (l ∷ locked) s =
      let (r, t) =
        client.force_close_with_vc caller req.state.id vc.state.id req.state vc.state req.sigs
          req.params l.index_map s in
      (passed r, t)

  -- The part of `Withdraw` for a state that is not final, by the states of the virtual channels.
  unfoldable pub withdraw_disputed :
      AdjudicatorReq → GoMap SignedState → S → Result RequestError (Unit {0}) × S
  unfolding withdraw_virtual passed
  withdraw_disputed req [] s =
      let (r, t) = client.force_close caller req.state.id req.state req.params s in (passed r, t)
  withdraw_disputed req ((id, vc) ∷ []) s = withdraw_virtual req vc req.state.locked s
  withdraw_disputed req (x ∷ y ∷ rest) s = (err many_virtual_channels, s)

  -- `Withdraw`
  unfoldable pub withdraw :
      AdjudicatorReq → GoMap SignedState → S → Result RequestError (Unit {0}) × S
  unfolding withdraw_disputed passed
  withdraw req states s =
      let (r, t) = client.close caller req.state.id req.state req.sigs req.params s in
      if req.secondary
      then (ok tt, s)
      else (if req.state.is_final then (passed r, t) else withdraw_disputed req states s)
