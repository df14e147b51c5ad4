-- ===== src/Audit/Anchor.antt =====
-- crates/fw-worker/src/audit_anchor.rs: the daily copy of the chain's head into the table audit_anchor.
use linux_host_firewall_mana.Prelude.{ℕ, String, Bool, Option, none, some, List, [], ◌∷◌, ◌++◌, ◌/◌}
use linux_host_firewall_mana.Prelude.Text.{concat}
use linux_host_firewall_mana.Prelude.Int.{show_ℕ}
use linux_host_firewall_mana.Audit.{AuditRow}

pub record AuditAnchor : Type 0 where
  pub id : ℕ
  pub chain_head : String
  pub anchored_at : ℕ
  pub anchor_type : String
  pub anchor_ref : String
  pub verified_at : Option ℕ
  pub verified_ok : Option Bool

-- `SELECT row_hash … ORDER BY id DESC LIMIT 1`
unfoldable pub chain_head : List AuditRow → Option String
chain_head [] = none
chain_head (row ∷ rows) =
    let rest = chain_head rows in elim rest [ none ↦ some row.row_hash | some head ↦ some head ]

abbrev pub anchor_row : ℕ → ℕ → String → AuditAnchor
anchor_row id now head = record {
  id = id;
  chain_head = head;
  anchored_at = now;
  anchor_type = "remote_log_host";
  anchor_ref = concat ("local-anchor-" ∷ show_ℕ (now / 1000000000) ∷ []);
  verified_at = none;
  verified_ok = none;
}

-- One round of the worker: `id` is the row's new uuid; an empty log is not anchored.
unfoldable pub anchor_chain : ℕ → ℕ → List AuditRow → List AuditAnchor → List AuditAnchor
unfolding chain_head
anchor_chain id now log anchors = elim (chain_head log) [
  | none ↦ anchors
  | some head ↦ anchors ++ anchor_row id now head ∷ []
]
