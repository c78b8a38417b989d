-- ===== src/Transactions/Graph.antt =====
-- The transition diagram of backend/src/transaction-state.ts: what it reaches, and how it ends.
use mathlib.Core.Path.{subst}
use daddy_config.Base.{true, ◌≡◌, ◌↔◌, refl, ◌⊎◌, inl, inr, arith}
use daddy_config.Transactions.State.{
  TransactionStatus, TransactionKind, pending_user_transfer_start, pending_anchor, pending_stellar,
  pending_external, pending_trust, pending_user, completed, refunded, expired, error, disputed,
  deposit, withdrawal, validate_transition, status_eq,
}

-- Any number of valid transitions.
pub data LeadsTo (kind : TransactionKind) (s : TransactionStatus) : TransactionStatus → Type 0 where
  here : LeadsTo kind s s
  next :
      {t u : TransactionStatus}
      → LeadsTo kind s t
      → validate_transition t u kind ≡ true
      → LeadsTo kind s u

pub LeadsTo-trans :
    {kind : TransactionKind} {s t u : TransactionStatus}
    → LeadsTo kind s t
    → LeadsTo kind t u
    → LeadsTo kind s u
LeadsTo-trans p here = p
LeadsTo-trans p (next q v) = next (LeadsTo-trans p q) v

-- No transition leaves these.
abbrev pub IsFinal : TransactionStatus → Type 0
IsFinal s = (s ≡ completed) ⊎ (s ≡ refunded) ⊎ (s ≡ expired)

final_stops :
    (kind : TransactionKind) (s t : TransactionStatus)
    → IsFinal s
    → validate_transition s t kind ≡ true
    → t ≡ s
unfolding validate_transition
final_stops kind s t f v = ground arith

pub final_stays :
    (kind : TransactionKind) (s t : TransactionStatus) → IsFinal s → LeadsTo kind s t → t ≡ s
final_stays kind s t f here = refl
final_stays kind s t f (next {t = x} p v) =
    let same : x ≡ s = final_stays kind s x f p in
    final_stops kind s t f (subst (λ y. validate_transition y t kind ≡ true) same v)

-- The statuses that a transaction of a kind can have, if it begins by waiting for the user.
abbrev pub IsReachable : TransactionKind → TransactionStatus → Type 0
IsReachable deposit pending_external = ⊥
IsReachable withdrawal pending_trust = ⊥
IsReachable withdrawal pending_user = ⊥
IsReachable _ disputed = ⊥
IsReachable _ _ = Unit

IsReachable-step :
    (kind : TransactionKind) (s t : TransactionStatus)
    → IsReachable kind s
    → validate_transition s t kind ≡ true
    → IsReachable kind t
unfolding validate_transition
IsReachable-step deposit s t h v = ground arith
IsReachable-step withdrawal s t h v = ground arith

IsReachable-sound :
    (kind : TransactionKind) (s t : TransactionStatus)
    → IsReachable kind s
    → LeadsTo kind s t
    → IsReachable kind t
IsReachable-sound kind s t h here = h
IsReachable-sound kind s t h (next {t = x} p v) =
    IsReachable-step kind x t (IsReachable-sound kind s x h p) v

step :
    {kind : TransactionKind} (s t : TransactionStatus)
    → validate_transition s t kind ≡ true
    → LeadsTo kind s t
step s t v = next here v

-- Each status that can be had is one that is had.
IsReachable-complete :
    (kind : TransactionKind) (s : TransactionStatus)
    → IsReachable kind s
    → LeadsTo kind pending_user_transfer_start s
unfolding validate_transition
IsReachable-complete deposit pending_user_transfer_start h = here
IsReachable-complete deposit pending_anchor h = step _ _ refl
IsReachable-complete deposit pending_stellar h = next {t = pending_anchor} (step _ _ refl) refl
IsReachable-complete deposit pending_trust h = next {t = pending_anchor} (step _ _ refl) refl
IsReachable-complete deposit pending_user h = next {t = pending_anchor} (step _ _ refl) refl
IsReachable-complete deposit pending_external h = absurd h
IsReachable-complete deposit completed h =
    next {t = pending_stellar} (next {t = pending_anchor} (step _ _ refl) refl) refl
IsReachable-complete deposit refunded h = next {t = error} (step _ _ refl) refl
IsReachable-complete deposit expired h = step _ _ refl
IsReachable-complete deposit error h = step _ _ refl
IsReachable-complete deposit disputed h = absurd h
IsReachable-complete withdrawal pending_user_transfer_start h = here
IsReachable-complete withdrawal pending_anchor h = step _ _ refl
IsReachable-complete withdrawal pending_stellar h = next {t = pending_anchor} (step _ _ refl) refl
IsReachable-complete withdrawal pending_trust h = absurd h
IsReachable-complete withdrawal pending_user h = absurd h
IsReachable-complete withdrawal pending_external h = next {t = pending_anchor} (step _ _ refl) refl
IsReachable-complete withdrawal completed h =
    next {t = pending_stellar} (next {t = pending_anchor} (step _ _ refl) refl) refl
IsReachable-complete withdrawal refunded h = next {t = error} (step _ _ refl) refl
IsReachable-complete withdrawal expired h = step _ _ refl
IsReachable-complete withdrawal error h = step _ _ refl
IsReachable-complete withdrawal disputed h = absurd h

-- From each such status one that is final can be had.
can_finish :
    (kind : TransactionKind) (s : TransactionStatus)
    → IsReachable kind s
    → (t : TransactionStatus) × LeadsTo kind s t × IsFinal t
unfolding validate_transition
can_finish kind completed h = (completed, here, inl refl)
can_finish kind refunded h = (refunded, here, inr (inl refl))
can_finish kind expired h = (expired, here, inr (inr refl))
can_finish deposit pending_external h = absurd h
can_finish withdrawal pending_trust h = absurd h
can_finish withdrawal pending_user h = absurd h
can_finish deposit disputed h = absurd h
can_finish withdrawal disputed h = absurd h
can_finish deposit error h = (refunded, step _ _ refl, inr (inl refl))
can_finish withdrawal error h = (refunded, step _ _ refl, inr (inl refl))
can_finish deposit s h = (refunded, next {t = error} (step _ _ (ground arith)) refl, inr (inl refl))
can_finish withdrawal s h =
    (refunded, next {t = error} (step _ _ (ground arith)) refl, inr (inl refl))

-- A transaction that begins by waiting for the user can have exactly the statuses of
-- `IsReachable`: a deposit never waits for an external transfer, a withdrawal never for trust or
-- the user, and neither is disputed. From each of them the diagram leads on to completed,
-- refunded or expired.
pub diagram :
    (kind : TransactionKind) (s : TransactionStatus)
    → (LeadsTo kind pending_user_transfer_start s ↔ IsReachable kind s)
      × (IsReachable kind s → (t : TransactionStatus) × LeadsTo kind s t × IsFinal t)
diagram deposit s = (
  (IsReachable-sound deposit pending_user_transfer_start s tt, IsReachable-complete deposit s),
  can_finish deposit s,
)
diagram withdrawal s = (
  (
    IsReachable-sound withdrawal pending_user_transfer_start s tt,
    IsReachable-complete withdrawal s,
  ),
  can_finish withdrawal s,
)
