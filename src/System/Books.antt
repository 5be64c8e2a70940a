-- ===== src/System/Books.antt =====
-- The books over the whole backend.
use money_management_pstu_ha.Prelude.{◌≡◌, List}
use money_management_pstu_ha.Prelude.Int.{pos}
use money_management_pstu_ha.Prelude.Exec.Ensures.{Keeps, Ensures-and, Ensures-from}
use money_management_pstu_ha.Database.{Db}
use money_management_pstu_ha.FinancialCore.Policies.{no_fee}
use money_management_pstu_ha.FinancialCore.Transfer.{TransferCommand, execute}
use money_management_pstu_ha.FinancialCore.Books.{IsSound, nothing_pending}
use money_management_pstu_ha.FinancialCore.Books.Writes.{
  IsBookFact, logs, both-IsBookFact, IsSoundUpTo-IsBookFact, insert_transfer-Keeps,
  try_transition_status-Keeps, reserve-Keeps, complete-Keeps,
}
use money_management_pstu_ha.FinancialCore.Books.Execution.{execute-IsSound}
use money_management_pstu_ha.FinancialCore.Books.Frames.{KeptByStatements, execute-Keeps}
use money_management_pstu_ha.FinancialCore.Books.Opening.{
  IsReferenced, IsReferenced-IsBookFact, IsSoundAndReferenced, insert_entries-IsReferenced,
  persist_balance-IsReferenced, create_subaccount-IsSound, set_status-IsSound,
}
use money_management_pstu_ha.Overdraft.Sweep.Kept.{interceptor_at-laws, interceptor_at-Keeps}
use money_management_pstu_ha.System.Invariant.{IsInvariant}
use money_management_pstu_ha.System.MoneyFacts.{
  to_money, money-IgnoresRest, money-IgnoresLoans, money-KeptByRequests, money-KeptByEscrows,
}
use money_management_pstu_ha.System.Wiring.{Wiring, interceptor_of}
use money_management_pstu_ha.System.Steps.{Event, happen_all, happen_all-Keeps}

IsReferenced-KeptByStatements : KeptByStatements IsReferenced
IsReferenced-KeptByStatements = record {
  logs = logs IsReferenced-IsBookFact;
  persists = persist_balance-IsReferenced;
  posts = insert_entries-IsReferenced;
  inserts = insert_transfer-Keeps IsReferenced-IsBookFact;
  reserves = reserve-Keeps IsReferenced-IsBookFact;
  completes = complete-Keeps IsReferenced-IsBookFact;
}

IsSoundAndReferenced-IsBookFact : IsBookFact IsSoundAndReferenced
IsSoundAndReferenced-IsBookFact =
    both-IsBookFact (IsSoundUpTo-IsBookFact nothing_pending (pos 0)) IsReferenced-IsBookFact

module _ (w : Wiring) (free : w.policy.fees ≡ no_fee) where
  execute-Keeps_both :
      (c : TransferCommand) → Keeps IsSoundAndReferenced (execute w.policy (interceptor_of w) c)
  execute-Keeps_both c =
      Ensures-and
        (Ensures-from (λ db h. h.0)
          (execute-IsSound w.policy free (interceptor_of w)
            (interceptor_at-laws w.digest w.policy w.lien_sweep_basis_points free 1) c))
        (Ensures-from (λ db h. h.1)
          (execute-Keeps IsReferenced-KeptByStatements (interceptor_of w)
            (interceptor_at-Keeps w.digest w.policy w.lien_sweep_basis_points
              IsReferenced-KeptByStatements (money-IgnoresLoans (to_money IsReferenced-IsBookFact))
              1)
            w.policy c))

  IsSoundAndReferenced-IsInvariant : IsInvariant w.policy (interceptor_of w) IsSoundAndReferenced
  IsSoundAndReferenced-IsInvariant =
      let fact = IsSoundAndReferenced-IsBookFact in
      record {
        logs = logs fact;
        rest = money-IgnoresRest (to_money fact);
        loans = money-IgnoresLoans (to_money fact);
        executes = execute-Keeps_both;
        reserves = reserve-Keeps fact;
        completes = complete-Keeps fact;
        latches =
            λ id from_status to_status _. try_transition_status-Keeps fact id from_status to_status;
        opens = create_subaccount-IsSound;
        closes = set_status-IsSound;
        requests = money-KeptByRequests (to_money fact);
        escrows = money-KeptByEscrows (to_money fact);
      }

  -- Money is neither made nor lost by any use of the backend: if the fee strategy is `NoFee`, the books
  -- balance and every entry is of an existing account, then both still hold after any sequence of
  -- transfers, undoable sends with and without an overdraft, undos, money requests and their answers,
  -- SafePay commands, delivery reports, overdraft pools and grants, registrations, logins, refreshes,
  -- logouts and timer batches, each a transaction, with or without a PIN, failed ones included, and of
  -- changes of the clocks. The repayments that the overdraft interceptor makes are among it.
  pub happen_all-IsSound :
      (events : List Event) (db : Db)
      → IsSound db
      → IsReferenced db
      → IsSoundAndReferenced (happen_all w events db)
  happen_all-IsSound events db sound referenced =
      happen_all-Keeps w IsSoundAndReferenced-IsInvariant events db (sound, referenced)
