-- ===== src/Transactions/State.antt =====
-- backend/src/transaction-state.ts: statuses, the transition tables, and the rows of the database.
-- The table's unique `transaction_id` (backend/migrations/webhook_schema.sql) makes it a map.
use daddy_config.Base.{
  ℕ, Bool, true, false, Option, List, [], ◌∷◌, String, eqb, contains, Equality, ◌↔◌, ◌≡◌, arith,
}

-- The type's ten statuses, and `disputed`, which the type lacks and which `handleDisputeRaised` of
-- backend/src/webhook-handler.ts writes to the column.
pub data TransactionStatus : Type 0 where
  pending_user_transfer_start pending_anchor pending_stellar pending_external pending_trust
        pending_user completed refunded expired error disputed :
      TransactionStatus

pub data TransactionKind : Type 0 where
  deposit withdrawal : TransactionKind

-- Whatever text arrives.
abbrev pub KycDecision : Type 0
KycDecision = String

abbrev pub status_rank : TransactionStatus → ℕ
status_rank pending_user_transfer_start = 0
status_rank pending_anchor = 1
status_rank pending_stellar = 2
status_rank pending_external = 3
status_rank pending_trust = 4
status_rank pending_user = 5
status_rank completed = 6
status_rank refunded = 7
status_rank expired = 8
status_rank error = 9
status_rank disputed = 10

abbrev pub status_beq : TransactionStatus → TransactionStatus → Bool
status_beq a b = eqb (status_rank a) (status_rank b)

pub status_beq_iff : (a b : TransactionStatus) → (status_beq a b ≡ true) ↔ (a ≡ b)
status_beq_iff a b = ground arith

instance abbrev pub status_eq : Equality TransactionStatus
status_eq = record { equals = status_beq; equals_iff = status_beq_iff }

abbrev pub kind_beq : TransactionKind → TransactionKind → Bool
kind_beq deposit deposit = true
kind_beq withdrawal withdrawal = true
kind_beq _ _ = false

-- The table of `validateTransition`.
abbrev pub valid_transitions : TransactionKind → TransactionStatus → List TransactionStatus
valid_transitions deposit pending_user_transfer_start = pending_anchor ∷ expired ∷ error ∷ []
valid_transitions deposit pending_anchor =
    pending_stellar ∷ pending_trust ∷ pending_user ∷ error ∷ []
valid_transitions deposit pending_stellar = completed ∷ error ∷ []
valid_transitions deposit pending_trust = pending_user ∷ error ∷ []
valid_transitions deposit pending_user = completed ∷ error ∷ []
valid_transitions deposit pending_external = completed ∷ error ∷ []
valid_transitions deposit completed = []
valid_transitions deposit refunded = []
valid_transitions deposit expired = []
valid_transitions deposit error = refunded ∷ []
valid_transitions withdrawal pending_user_transfer_start = pending_anchor ∷ expired ∷ error ∷ []
valid_transitions withdrawal pending_anchor = pending_external ∷ pending_stellar ∷ error ∷ []
valid_transitions withdrawal pending_external = completed ∷ error ∷ []
valid_transitions withdrawal pending_stellar = completed ∷ error ∷ []
valid_transitions withdrawal pending_trust = []
valid_transitions withdrawal pending_user = []
valid_transitions withdrawal completed = []
valid_transitions withdrawal refunded = []
valid_transitions withdrawal expired = []
valid_transitions withdrawal error = refunded ∷ []
-- `validTransitions[kind][currentStatus] || []`.
valid_transitions kind disputed = []

unfoldable pub validate_transition : TransactionStatus → TransactionStatus → TransactionKind → Bool
validate_transition current_status new_status kind =
    contains (valid_transitions kind current_status) new_status

pub record TransactionUpdate : Type 0 where
  pub transaction_id : String
  pub status : TransactionStatus
  pub status_eta : Option ℕ
  pub amount_in : Option String
  pub amount_out : Option String
  pub amount_fee : Option String
  pub stellar_transaction_id : Option String
  pub external_transaction_id : Option String
  pub message : Option String

pub record KycUpdate : Type 0 where
  pub transaction_id : String
  pub kyc_status : KycDecision
  pub kyc_fields : Option String
  pub rejection_reason : Option String

-- A row of `transactions`, but for its key and the columns that the updates leave alone.
pub record Transaction : Type 0 where
  pub kind : TransactionKind
  pub status : TransactionStatus
  pub status_eta : Option ℕ
  pub amount_in : Option String
  pub amount_out : Option String
  pub amount_fee : Option String
  pub stellar_transaction_id : Option String
  pub external_transaction_id : Option String
  pub message : Option String
  pub kyc_status : Option KycDecision
  pub kyc_fields : Option String
  pub kyc_rejection_reason : Option String
  pub updated_at : ℕ

-- A row of `transaction_state_history`.
pub record HistoryRow : Type 0 where
  pub transaction_id : String
  pub from_status : TransactionStatus
  pub to_status : TransactionStatus
  pub changed_at : ℕ

pub record Db : Type 0 where
  pub transactions : List (String × Transaction)
  pub history : List HistoryRow
