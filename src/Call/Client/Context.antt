-- ===== src/Call/Client/Context.antt =====
-- The context that `Client.Do` makes, and the bodies that it sends.
use chassis_go.Prelude.{◌≡◌, Bool, true, false, Option, none, some, arith}
use chassis_go.Call.Errors.{Error}
use chassis_go.Call.Retry.{Response}
use chassis_go.Call.Client.{
  BreakerOps, Client, Request, Reply, do_request, gate, reject, execute, release, abandon, Cancel,
  not_made, cancelled, with_the_body,
}

-- A context made by `Do` is cancelled when `Do` returns, or, if a response is returned without an
-- error, when the caller closes its body.
abbrev pub expected_cancel : Bool → Option Response → Option Error → Cancel
expected_cancel true _ _ = not_made
expected_cancel false (some resp) none = with_the_body
expected_cancel false _ (some err) = cancelled
expected_cancel false none none = cancelled

module _ {B : Type 0} (ops : BreakerOps B) (c : Client B) (req : Request) where
  abbrev Tidy : Reply B → Type 0
  Tidy r = r.cancel ≡ expected_cancel req.has_deadline r.resp r.err

  -- On every path, the early returns included, `Do` makes no context exactly if the request has a
  -- deadline; one that it makes is cancelled at once unless a response is returned with no error,
  -- and then it is left to the close of that response's body.
  pub do_request-cancel :
      (do_request ops c req).cancel
      ≡ expected_cancel req.has_deadline (do_request ops c req).resp (do_request ops c req).err
  unfolding do_request gate reject execute release abandon
  do_request-cancel = ground arith
