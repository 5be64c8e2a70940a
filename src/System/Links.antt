-- ===== src/System/Links.antt =====
-- The CHECK constraints `transfer_only_when_accepted` (backend/modules/money_request/adapters/persistence/models.py)
-- and `settled_has_settlement_leg` (backend/modules/safepay/adapters/persistence/models.py), which tie a record to
-- the transfer that ended it.
use money_management_pstu_ha.Prelude.{
  ◌≡◌, ◌≢◌, refl, sym, ◌∙◌, Bool, true, false, ◌||◌, List, arith, is_some, update, All, All-append,
  All-update,
}
use money_management_pstu_ha.Prelude.Exec.{modify}
use money_management_pstu_ha.Prelude.Exec.Ensures.{
  Keeps, keeps_rules, Keeps-bind, Keeps-lift, Keeps-gets, Keeps-modify,
}
use money_management_pstu_ha.Database.{Db, database_now}
use money_management_pstu_ha.Database.Enums.{
  RequestStatus, EscrowStatus, is_pending, same_escrow_status,
}
use money_management_pstu_ha.Database.Schema.{MoneyRequestRecord, SafePayEscrowRecord}
use money_management_pstu_ha.FinancialCore.Repositories.Accounts.{create_subaccount, set_status}
use money_management_pstu_ha.FinancialCore.Repositories.Transfers.{try_transition_status}
use money_management_pstu_ha.FinancialCore.Books.Frames.{
  IsAside, aside-KeptByStatements, execute-Keeps,
}
use money_management_pstu_ha.MoneyRequest.Requests.{
  insert_request, mark_accepted, mark_terminal, sweep_expired, accepted_with, ended_as, lapsed,
  is_open, is_overdue,
}
use money_management_pstu_ha.SafePay.Escrows.{
  Outcome, release, refund, insert_escrow, mark_shipped, mark_delivered, mark_disputed,
  record_code_failure, mark_settled, is_under_way, outcome_status,
}
use money_management_pstu_ha.Overdraft.Sweep.Kept.{IgnoresLoans, interceptor_at-Keeps}
use money_management_pstu_ha.System.Invariant.{IsInvariant, KeptByRequests, KeptByEscrows}
use money_management_pstu_ha.System.Wiring.{Wiring, interceptor_of}
use money_management_pstu_ha.System.Steps.{Event, happen_all, happen_all-Keeps}

abbrev is_accepted : RequestStatus → Bool
is_accepted RequestStatus.accepted = true
is_accepted RequestStatus.pending = false
is_accepted RequestStatus.rejected = false
is_accepted RequestStatus.cancelled = false
is_accepted RequestStatus.expired = false

abbrev pub IsLinkedRequest : MoneyRequestRecord → Type 0
IsLinkedRequest r = is_some r.transfer_id ≡ is_accepted r.status

abbrev pub is_settled : EscrowStatus → Bool
is_settled status =
    same_escrow_status status EscrowStatus.released
    || same_escrow_status status EscrowStatus.refunded

abbrev pub IsLinkedEscrow : SafePayEscrowRecord → Type 0
IsLinkedEscrow e = is_some e.settlement_transfer_id ≡ is_settled e.status

pub record IsLinked (db : Db) : Type 0 where
  pub requests : All IsLinkedRequest db.money_requests
  pub escrows : All IsLinkedEscrow db.safepay_escrows

IsLinked-IsAside : IsAside IsLinked
IsLinked-IsAside = record {
  carry = λ db db' requests users sessions escrows loans repayments h. record {
    requests = rw requests h.requests;
    escrows = rw escrows h.escrows;
  };
}

not_accepted :
    (status : RequestStatus) → status ≢ RequestStatus.accepted → is_accepted status ≡ false
not_accepted RequestStatus.accepted differ = elim (differ refl) [ ]
not_accepted RequestStatus.pending differ = refl
not_accepted RequestStatus.rejected differ = refl
not_accepted RequestStatus.cancelled differ = refl
not_accepted RequestStatus.expired differ = refl

-- A request that ends without a transfer had none while it was pending.
ended_unlinked :
    (r : MoneyRequestRecord) (status : RequestStatus)
    → is_accepted status ≡ false
    → is_pending r.status ≡ true
    → IsLinkedRequest r
    → is_some r.transfer_id ≡ is_accepted status
ended_unlinked r status other waits h = ground arith

update_requests :
    (hit : MoneyRequestRecord → Bool) (f : MoneyRequestRecord → MoneyRequestRecord)
    → ((r : MoneyRequestRecord) → hit r ≡ true → IsLinkedRequest r → IsLinkedRequest (f r))
    → Keeps IsLinked (modify (λ db. record db { money_requests = update hit f db.money_requests }))
update_requests hit f keeps = Keeps-modify _ λ db h. record {
  requests = All-update IsLinkedRequest hit f keeps db.money_requests h.requests;
  escrows = h.escrows;
}

requests-IsLinked : KeptByRequests IsLinked
unfolding insert_request mark_accepted mark_terminal sweep_expired
requests-IsLinked = record {
  inserts = λ row pending free. Keeps-bind _ _ (Keeps-gets _) λ _.
      Keeps-bind _ _ (Keeps-lift _) λ _. Keeps-bind _ _ (Keeps-gets _) λ _.
        Keeps-bind _ _ (Keeps-lift _) λ _. Keeps-bind _ _ (Keeps-lift _) λ _. Keeps-modify _ λ db h.
          record {
            requests =
                All-append IsLinkedRequest db.money_requests _ h.requests
                  (rw (pending, free) refl, tt);
            escrows = h.escrows;
          };
  accepts = λ id transfer_id now. Keeps-bind _ _ (Keeps-gets _) λ _.
      Keeps-bind _ _ (Keeps-gets _) λ _. Keeps-bind _ _ (Keeps-lift _) λ _.
        Keeps-bind _ _
          (update_requests (is_open id) (accepted_with transfer_id now) (λ r _ _. refl))
          λ _. Keeps-lift _;
  ends = λ id status now other. Keeps-bind _ _ (Keeps-gets _) λ _.
      Keeps-bind _ _
        (update_requests (is_open id) (ended_as status now)
          (λ r hit h. ended_unlinked r status (not_accepted status other) (ground (arith, hit)) h))
        λ _. Keeps-lift _;
  sweeps = λ now. Keeps-bind _ _ (Keeps-gets _) λ _.
      Keeps-bind _ _
        (update_requests (is_overdue now) (lapsed now)
          (λ r hit h. ended_unlinked r RequestStatus.expired refl (ground (arith, hit)) h))
        λ _. Keeps-lift _;
}

-- An escrow that moves on without a settlement was unsettled.
still_unsettled :
    (e : SafePayEscrowRecord) (status : EscrowStatus)
    → is_settled status ≡ false
    → is_settled e.status ≡ false
    → IsLinkedEscrow e
    → is_some e.settlement_transfer_id ≡ is_settled status
still_unsettled e status after before h = h ∙ before ∙ sym after

update_escrows :
    (hit : SafePayEscrowRecord → Bool) (f : SafePayEscrowRecord → SafePayEscrowRecord)
    → ((e : SafePayEscrowRecord) → hit e ≡ true → IsLinkedEscrow e → IsLinkedEscrow (f e))
    → Keeps IsLinked
        (modify (λ db. record db { safepay_escrows = update hit f db.safepay_escrows }))
update_escrows hit f keeps = Keeps-modify _ λ db h. record {
  requests = h.requests;
  escrows = All-update IsLinkedEscrow hit f keeps db.safepay_escrows h.escrows;
}

under_way_unsettled :
    (status : EscrowStatus) → is_under_way status ≡ true → is_settled status ≡ false
under_way_unsettled status here = ground arith

settled_outcome : (outcome : Outcome) → true ≡ is_settled (outcome_status outcome)
settled_outcome release = refl
settled_outcome refund = refl

escrows-IsLinked : KeptByEscrows IsLinked
unfolding insert_escrow mark_shipped mark_delivered mark_disputed record_code_failure mark_settled
escrows-IsLinked = record {
  inserts = λ row here free. Keeps-bind _ _ (Keeps-gets _) λ _. Keeps-bind _ _ (Keeps-lift _) λ _.
      Keeps-bind _ _ (Keeps-lift _) λ _. Keeps-modify _ λ db h. record {
        requests = h.requests;
        escrows =
            All-append IsLinkedEscrow db.safepay_escrows _ h.escrows
              (rw free (sym (under_way_unsettled row.status here)), tt);
      };
  ships = λ id seller courier tracking now. Keeps-bind _ _ (Keeps-gets _) λ _.
      Keeps-bind _ _
        (update_escrows _ _
          (λ e hit h. still_unsettled e EscrowStatus.shipped refl (ground (arith, hit)) h))
        λ _. Keeps-lift _;
  delivers = λ id now release_at. Keeps-bind _ _ (Keeps-gets _) λ _.
      Keeps-bind _ _
        (update_escrows _ _
          (λ e hit h. still_unsettled e EscrowStatus.delivered refl (ground (arith, hit)) h))
        λ _. Keeps-lift _;
  disputes = λ id buyer reason now. Keeps-bind _ _ (Keeps-gets _) λ _.
      Keeps-bind _ _
        (update_escrows _ _
          (λ e hit h. still_unsettled e EscrowStatus.disputed refl (ground (arith, hit)) h))
        λ _. Keeps-lift _;
  counts = λ id attempts until now. update_escrows _ _ (λ e hit h. h);
  settles = λ id outcome transfer_id now memo. Keeps-bind _ _ (Keeps-gets _) λ _.
      Keeps-bind _ _ (Keeps-gets _) λ _. Keeps-bind _ _ (Keeps-lift _) λ _.
        Keeps-bind _ _ (update_escrows _ _ (λ e hit h. settled_outcome outcome)) λ _. Keeps-lift _;
}

keep_both :
    (f : Db → Db)
    → ((db : Db) → (f db).money_requests ≡ db.money_requests)
    → ((db : Db) → (f db).safepay_escrows ≡ db.safepay_escrows)
    → Keeps IsLinked (modify f)
keep_both f requests escrows =
    Keeps-modify f
      λ db h. record { requests = rw (requests db) h.requests; escrows = rw (escrows db) h.escrows }

IsLinked-IgnoresLoans : IgnoresLoans IsLinked
IsLinked-IgnoresLoans = record {
  loans = λ db rows h. record { requests = h.requests; escrows = h.escrows };
  repayments = λ db rows h. record { requests = h.requests; escrows = h.escrows };
}

module _ (w : Wiring) where
  IsLinked-IsInvariant : IsInvariant w.policy (interceptor_of w) IsLinked
  unfolding create_subaccount set_status try_transition_status database_now
  IsLinked-IsInvariant =
      let statements = aside-KeptByStatements IsLinked-IsAside in
      record {
        logs = statements.logs;
        rest = record {
          tasks = λ db rows h. record { requests = h.requests; escrows = h.escrows };
          users = λ db rows h. record { requests = h.requests; escrows = h.escrows };
          sessions = λ db rows h. record { requests = h.requests; escrows = h.escrows };
          pools = λ db rows h. record { requests = h.requests; escrows = h.escrows };
          grants = λ db rows h. record { requests = h.requests; escrows = h.escrows };
          clocks = λ db now db_now h. record { requests = h.requests; escrows = h.escrows };
        };
        loans = IsLinked-IgnoresLoans;
        executes = λ c.
            execute-Keeps statements (interceptor_of w)
              (interceptor_at-Keeps w.digest w.policy w.lien_sweep_basis_points statements
                IsLinked-IgnoresLoans 1)
              w.policy c;
        reserves = statements.reserves;
        completes = statements.completes;
        latches = λ id from_status to_status final. search (keeps_rules, keep_both) depth 10;
        opens = λ id user_id type number currency now. search (keeps_rules, keep_both) depth 14;
        closes = λ id status. search (keeps_rules, keep_both) depth 10;
        requests = requests-IsLinked;
        escrows = escrows-IsLinked;
      }

  -- No use of the backend violates the CHECKs that tie a record to its transfer: after any sequence of
  -- events, from a database where this held, a money request has a transfer exactly if it is accepted, and
  -- an escrow has a settlement exactly if it is released or refunded.
  pub happen_all-IsLinked :
      (events : List Event) (db : Db) → IsLinked db → IsLinked (happen_all w events db)
  happen_all-IsLinked events db h = happen_all-Keeps w IsLinked-IsInvariant events db h
