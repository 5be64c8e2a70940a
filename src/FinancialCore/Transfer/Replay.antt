-- ===== src/FinancialCore/Transfer/Replay.antt =====
-- Idempotency of `TransferUseCase.execute` (backend/modules/financial_core/application/transfer.py): what a
-- key that was seen before leads to.
use money_management_pstu_ha.Prelude.{
  ℕ, ◌≡◌, refl, true, false, String, Option, none, some, ap, arith, str_eq, Option-cases, inl, inr,
}
use money_management_pstu_ha.Prelude.Int.{pos}
use money_management_pstu_ha.Prelude.Result.{Result, ok, err, not_found, idempotency_key_reuse}
use money_management_pstu_ha.Prelude.Exec.{lift, gets, ◌>>=◌, option_case, continue, pure}
use money_management_pstu_ha.Kernel.Money.{Money, Currency, supported_currency, from_minor, bdt}
use money_management_pstu_ha.Database.{Db, clock_now}
use money_management_pstu_ha.Database.Enums.{IdempotencyStatus, TransferStatus}
use money_management_pstu_ha.Database.Schema.{IdempotencyRecord, Reference}
use money_management_pstu_ha.Database.Json.{str, Fields, get, str_or, int_or}
use money_management_pstu_ha.Database.Words.{
  transfer_status_text, transfer_status_of, reference_json, reference_of,
}
use money_management_pstu_ha.FinancialCore.Idempotency.{stored_or_empty, replay}
use money_management_pstu_ha.FinancialCore.Repositories.Keys.{find_key, reserve, decide_existing}
use money_management_pstu_ha.FinancialCore.Transfer.{
  Policy, Interceptor, TransferCommand, TransferResult, key_of, to_response, replay_result,
  handle_idempotency_decision, perform, execute,
}

decide_existing-completed :
    (fingerprint : String) (r : IdempotencyRecord)
    → str_eq r.request_fingerprint fingerprint ≡ true
    → r.status ≡ IdempotencyStatus.completed
    → decide_existing fingerprint r ≡ record {
      outcome = replay;
      stored_status = r.http_status;
      stored_body = r.response_body;
      resource_id = r.resource_id;
    }
unfolding decide_existing
decide_existing-completed fingerprint r same done = rw (same, done) refl

handle_idempotency_decision-replay :
    (status resource_id : Option ℕ) (body : Option Fields) (now : ℕ) (currency : Currency)
    → supported_currency (str_or "BDT" (get "currency" (stored_or_empty body))) ≡ some currency
    → handle_idempotency_decision
        (record {
          outcome = replay;
          stored_status = status;
          stored_body = body;
          resource_id = resource_id;
        })
        now
      ≡ ok (some (replay_result (stored_or_empty body) resource_id now currency))
unfolding handle_idempotency_decision
handle_idempotency_decision-replay status resource_id body now currency supported =
    rw (handle_idempotency_decision, supported) refl

handle_idempotency_decision-unsupported :
    (status resource_id : Option ℕ) (body : Option Fields) (now : ℕ)
    → supported_currency (str_or "BDT" (get "currency" (stored_or_empty body))) ≡ none
    → handle_idempotency_decision
        (record {
          outcome = replay;
          stored_status = status;
          stored_body = body;
          resource_id = resource_id;
        })
        now
      ≡ err not_found
unfolding handle_idempotency_decision
handle_idempotency_decision-unsupported status resource_id body now unknown =
    rw (handle_idempotency_decision, unknown) refl

module _ (policy : Policy) (interceptor : Interceptor) (command : TransferCommand) (db : Db)
    (r : IdempotencyRecord) (seen : find_key (key_of command) db ≡ some r) where
  execute-seen :
      execute policy interceptor command db
      ≡ continue
          (handle_idempotency_decision (decide_existing command.request_fingerprint r) db.clock)
          (λ replayed.
            option_case replayed (perform policy interceptor command db.clock) (λ a. pure a))
          db
  unfolding execute reserve clock_now ◌>>=◌ gets lift option_case
  execute-seen = rw seen refl

  -- A key that was used for another payload is refused, and nothing is written.
  pub execute-payload_mismatch :
      str_eq r.request_fingerprint command.request_fingerprint ≡ false
      → execute policy interceptor command db ≡ (err idempotency_key_reuse, db)
  unfolding decide_existing handle_idempotency_decision
  execute-payload_mismatch differs = rw (execute-seen, differs) refl

  -- A completed key, with the same fingerprint and a stored currency that is supported, is answered from its
  -- stored response, and nothing is written: no money moves twice.
  pub execute-replays :
      str_eq r.request_fingerprint command.request_fingerprint ≡ true
      → r.status ≡ IdempotencyStatus.completed
      → (currency : Currency)
      → supported_currency (str_or "BDT" (get "currency" (stored_or_empty r.response_body)))
        ≡ some currency
      → execute policy interceptor command db
        ≡ (ok (replay_result (stored_or_empty r.response_body) r.resource_id db.clock currency), db)
  unfolding option_case lift
  execute-replays same done currency supported =
      rw
        (
          execute-seen,
          decide_existing-completed _ r same done,
          handle_idempotency_decision-replay _ _ _ db.clock currency supported,
        )
        refl

  execute-unsupported :
      str_eq r.request_fingerprint command.request_fingerprint ≡ true
      → r.status ≡ IdempotencyStatus.completed
      → supported_currency (str_or "BDT" (get "currency" (stored_or_empty r.response_body))) ≡ none
      → execute policy interceptor command db ≡ (err not_found, db)
  unfolding option_case lift
  execute-unsupported same done unknown =
      rw
        (
          execute-seen,
          decide_existing-completed _ r same done,
          handle_idempotency_decision-unsupported _ _ _ db.clock unknown,
        )
        refl

  -- A completed key, with the same fingerprint, has nothing written for it, whatever its response holds.
  pub execute-completed :
      str_eq r.request_fingerprint command.request_fingerprint ≡ true
      → r.status ≡ IdempotencyStatus.completed
      → (execute policy interceptor command db).1 ≡ db
  execute-completed same done =
      elim (Option-cases
        (supported_currency (str_or "BDT" (get "currency" (stored_or_empty r.response_body))))) [
          | inl unknown ↦
              ap (λ (answer : Result TransferResult × Db). answer.1)
                (execute-unsupported same done unknown)
          | inr (currency, supported) ↦
              ap (λ (answer : Result TransferResult × Db). answer.1)
                (execute-replays same done currency supported)
        ]

transfer_status_of-text :
    (s : TransferStatus) → transfer_status_of (some (str (transfer_status_text s))) ≡ s
unfolding transfer_status_of transfer_status_text str_or
transfer_status_of-text TransferStatus.succeeded = refl
transfer_status_of-text TransferStatus.failed = refl
transfer_status_of-text TransferStatus.reversed = refl
transfer_status_of-text TransferStatus.pending_undo = refl
transfer_status_of-text TransferStatus.held = refl
transfer_status_of-text TransferStatus.disputed = refl
transfer_status_of-text TransferStatus.refunded = refl

reference_of-json : (r : Reference) → reference_of (some (reference_json r)) ≡ r
unfolding reference_of reference_json str_or int_or get
reference_of-json r = refl

in_bdt : (m : Money) → m.currency ≡ bdt → from_minor m.minor bdt ≡ m
unfolding from_minor
in_bdt m h = ground arith

-- The stored response of a transfer in BDT gives the result back, but for the receiver's balance, which it does not hold.
pub replay_result-to_response :
    (result : TransferResult) (resource_id : Option ℕ) (now : ℕ)
    → result.amount.currency ≡ bdt
    → result.fee.currency ≡ bdt
    → result.sender_balance_after.currency ≡ bdt
    → replay_result (to_response result) resource_id now bdt
      ≡ record result { receiver_balance_after = from_minor (pos 0) bdt; replayed = true }
unfolding replay_result to_response get int_or
replay_result-to_response result resource_id now a f s =
    rw
      (
        transfer_status_of-text result.status,
        reference_of-json result.reference,
        in_bdt result.amount a,
        in_bdt result.fee f,
        in_bdt result.sender_balance_after s,
      )
      refl
