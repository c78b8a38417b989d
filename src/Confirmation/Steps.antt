-- ===== src/Confirmation/Steps.antt =====
-- Requests of backend/src/admin-confirmation.ts that run at once: a confirmation has checked its row and
-- not yet written, while other requests are served.
use daddy_config.Base.{
  text_equality, number_equality, ℕ, ◌+◌, ◌<◌, false, Option, none, some, List, [], ◌∷◌, ◌++◌,
  String, ◌≡◌, ◌≢◌, refl, sym, ap, ◌∙◌, arith, get, ok, All, AllEntries, AllEntries-put,
  AllEntries-map, AllEntries-get, Option-cases, inl, inr, Bool-cases, if◌then◌else◌, ◌==◌, eqb_iff,
}
use mathlib.Core.Path.{subst}
use daddy_config.Confirmation.Actions.{
  HighRiskOperation, PendingAdminAction, AdminDb, Rows, checked, initiate, write_confirmation,
  purge_expired, purged, is_stale, confirmed_row,
}
use daddy_config.Confirmation.Laws.{checked_ok}

-- A confirmation under way: the row that it read, and the administrator.
abbrev pub Ticket : Type 0
Ticket = PendingAdminAction × String

pub record System : Type 0 where
  pub db : AdminDb
  pub tickets : List Ticket

-- A request that is served, or the half of a confirmation: the check, or the write of a ticket.
pub data Event : Type 0 where
  start : ℕ → ℕ → HighRiskOperation → String → String → Event
  check : ℕ → ℕ → String → Event
  write : ℕ → Ticket → Event
  purge : ℕ → Event

-- A ticket is written only if its check has passed.
pub data Step : Event → System → System → Type 0 where
  started :
      {now t : ℕ} {operation : HighRiskOperation} {by params : String} {s : System}
      → Step
          (start now t operation by params)
          s
          (record s { db = (initiate now t operation by params s.db).1 })
  passed :
      {now id : ℕ} {admin : String} {s : System} {row : PendingAdminAction}
      → checked now admin (get id s.db.rows) ≡ ok row
      → Step (check now id admin) s (record s { tickets = (row, admin) ∷ s.tickets })
  wrote :
      {t : ℕ} {row : PendingAdminAction} {admin : String} {d : AdminDb} (before after : List Ticket)
      → Step
          (write t (row, admin))
          (record { db = d; tickets = before ++ (row, admin) ∷ after })
          (record { db = (write_confirmation t row admin d).1; tickets = before ++ after })
  cleaned : {t : ℕ} {s : System} → Step (purge t) s (record s { db = (purge_expired t s.db).1 })

pub data Steps : System → System → Type 0 where
  stop : {s : System} → Steps s s
  also : {e : Event} {r s t : System} → Step e r s → Steps s t → Steps r t

abbrev pub empty : System
empty = record { db = record { rows = []; audit = []; issued = 0 }; tickets = [] }

-- A row, given who initiated which id.
abbrev FineRow : ℕ → (ℕ → String) → ℕ → PendingAdminAction → Type 0
FineRow issued by k a =
    (a.id ≡ k)
    × (k < issued)
    × (a.initiated_by ≡ by k)
    × ((who : String) → a.confirmed_by ≡ some who → who ≢ by k)

abbrev FineTicket : ℕ → (ℕ → String) → Ticket → Type 0
FineTicket issued by (row, admin) = (row.id < issued) × (admin ≢ by row.id)

record Fine (s : System) : Type 0 where
  by : ℕ → String
  rows : AllEntries (FineRow s.db.issued by) s.db.rows
  tickets : All (FineTicket s.db.issued by) s.tickets

abbrev initiator : ℕ → String → (ℕ → String) → ℕ → String
initiator issued who by k = if k == issued then who else by k

initiator_own : (issued : ℕ) (who : String) (by : ℕ → String) → initiator issued who by issued ≡ who
initiator_own issued who by = ground (arith, eqb_iff issued issued)

FineRow-later :
    (issued : ℕ) (who : String) (by : ℕ → String) (k : ℕ) (a : PendingAdminAction)
    → FineRow issued by k a
    → FineRow (issued + 1) (initiator issued who by) k a
FineRow-later issued who by k a (id, k<n, same, others) =
    let old : (k == issued) ≡ false = ground (arith, k<n, eqb_iff k issued) in
    rw old (id, omega (arith, k<n), same, others)

FineTicket-later :
    (issued : ℕ) (who : String) (by : ℕ → String) (t : Ticket)
    → FineTicket issued by t
    → FineTicket (issued + 1) (initiator issued who by) t
FineTicket-later issued who by (row, admin) (small, apart) =
    let old : (row.id == issued) ≡ false = ground (arith, small, eqb_iff row.id issued) in
    rw old (omega (arith, small), apart)

All-later :
    (issued : ℕ) (who : String) (by : ℕ → String) (ts : List Ticket)
    → All (FineTicket issued by) ts
    → All (FineTicket (issued + 1) (initiator issued who by)) ts
All-later issued who by [] h = tt
All-later issued who by (t ∷ ts) (f, h) =
    (FineTicket-later issued who by t f, All-later issued who by ts h)

All-split :
    (P : Ticket → Type 0) (before : List Ticket) (t : Ticket) (after : List Ticket)
    → All P (before ++ t ∷ after)
    → P t × All P (before ++ after)
All-split P [] t after (p, h) = (p, h)
All-split P (x ∷ before) t after (q, h) =
    let (p, rest) = All-split P before t after h in (p, (q, rest))

AllEntries-purged :
    (P : ℕ → PendingAdminAction → Type 0) (t : ℕ) (rows : Rows)
    → AllEntries P rows
    → AllEntries P (purged t rows).1
unfolding purged
AllEntries-purged P t [] h = tt
AllEntries-purged P t ((k, a) ∷ rows) (p, h) = elim (Bool-cases (is_stale t a)) [
  | inl stale ↦ rw (stale, purged) (AllEntries-purged P t rows h)
  | inr fresh ↦ rw (fresh, purged) (p, AllEntries-purged P t rows h)
]

some-one : {a b : String} → some a ≡ some b → a ≡ b
some-one h = cc h

none-some : {a : String} → ◌≢◌ {A = Option String} none (some a)
none-some h = cc h

write-rows :
    (issued t : ℕ) (by : ℕ → String) (row : PendingAdminAction) (admin : String) (d : AdminDb)
    → AllEntries (FineRow issued by) d.rows
    → FineTicket issued by (row, admin)
    → AllEntries (FineRow issued by) (write_confirmation t row admin d).1.rows
unfolding write_confirmation
write-rows issued t by row admin d h (small, apart) = elim (Option-cases (get row.id d.rows)) [
  | inl gone ↦ rw (gone, write_confirmation) h
  | inr (old, found) ↦
      let (id, k<n, same, others) = AllEntries-get (FineRow issued by) row.id old d.rows h found in
      rw (found, write_confirmation)
        (AllEntries-put (FineRow issued by) row.id (confirmed_row t admin old) d.rows h
          (id, k<n, same, λ who is e. apart (some-one is ∙ e)))
]

write-issued :
    (t : ℕ) (row : PendingAdminAction) (admin : String) (d : AdminDb)
    → (write_confirmation t row admin d).1.issued ≡ d.issued
unfolding write_confirmation
write-issued t row admin d = elim (Option-cases (get row.id d.rows)) [
  | inl gone ↦ rw (gone, write_confirmation) refl
  | inr (old, found) ↦ rw (found, write_confirmation) refl
]

Fine-Step : (e : Event) (r s : System) → Step e r s → Fine r → Fine s
unfolding initiate purge_expired
Fine-Step _ r _ (started {now} {t} {operation} {by} {params}) h = record {
  by = initiator r.db.issued by h.by;
  rows =
      AllEntries-put (FineRow (r.db.issued + 1) (initiator r.db.issued by h.by)) r.db.issued _
        r.db.rows (AllEntries-map (FineRow-later r.db.issued by h.by) r.db.rows h.rows)
        (refl, omega arith, sym (initiator_own r.db.issued by h.by), λ who is e. none-some is);
  tickets = All-later r.db.issued by h.by r.tickets h.tickets;
}
Fine-Step _ r _ (passed {now} {id} {admin} {row = row} ok_row) h =
    let (found, fine) = checked_ok now admin (get id r.db.rows) row ok_row in
    let (at, small, same, _) =
      AllEntries-get (FineRow r.db.issued h.by) id row r.db.rows h.rows found in
    record {
      by = h.by;
      rows = h.rows;
      tickets = (
        (
          subst (λ i. i < r.db.issued) (sym at) small,
          λ e. fine.other (same ∙ ap h.by (sym at) ∙ sym e),
        ),
        h.tickets,
      );
    }
Fine-Step _ _ _ (wrote {t} {row} {admin} {d} before after) h =
    let (ticket, rest) = All-split (FineTicket d.issued h.by) before (row, admin) after h.tickets in
    record {
      by = h.by;
      rows = rw (write-issued t row admin d) (write-rows d.issued t h.by row admin d h.rows ticket);
      tickets = rw (write-issued t row admin d) rest;
    }
Fine-Step _ r _ (cleaned {t}) h = record {
  by = h.by;
  rows = AllEntries-purged (FineRow r.db.issued h.by) t r.db.rows h.rows;
  tickets = h.tickets;
}

Steps-Fine : (r s : System) → Steps r s → Fine r → Fine s
Steps-Fine r s stop h = h
Steps-Fine r t (also {s = s} st more) h = Steps-Fine s t more (Fine-Step _ r s st h)

-- However requests interleave, on a database that starts empty no stored action is ever confirmed by
-- the administrator who initiated it.
pub Steps-never_own :
    (s : System) (id : ℕ) (row : PendingAdminAction) (who : String)
    → Steps empty s
    → get id s.db.rows ≡ some row
    → row.confirmed_by ≡ some who
    → who ≢ row.initiated_by
Steps-never_own s id row who steps found is e =
    let h : Fine s = Steps-Fine empty s steps (record { by = λ k. ""; rows = tt; tickets = tt }) in
    let (_, _, same, others) =
      AllEntries-get (FineRow s.db.issued h.by) id row s.db.rows h.rows found in
    others who is (e ∙ same)
