-- ===== src/Payment/Tests.antt =====
-- A payment at concrete inputs: it is cancelled, and then reported as a success.
use openpcc.Base.{none, false, [], ◌∷◌}
use openpcc.Base.Int.{pos}
use openpcc.Credit.Toy.{paid}
use openpcc.Payment.{Wallet, answered, responds, begin_payment}
use openpcc.Payment.Once.{Begun, call_success, call_cancel, begin_payment-Begun}

abbrev wallet : Wallet
wallet = record { closed = false; payments_wg = pos 2; prefetch_amount = pos 64; results = [] }

begin_payment-Begun_example :
    Begun
      (answered (responds paid))
      call_cancel
      (call_success none ∷ [])
      wallet
      (begin_payment (pos 20) (answered (responds paid)) wallet)
begin_payment-Begun_example =
    begin_payment-Begun (pos 20) (answered (responds paid)) call_cancel (call_success none ∷ [])
      wallet
