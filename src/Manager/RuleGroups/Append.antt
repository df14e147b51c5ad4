-- ===== src/Manager/RuleGroups/Append.antt =====
-- A rule group is an ordered list: a new rule stands last (crates/fw-web/src/routes/rule_groups.rs).
use linux_host_firewall_mana.Prelude.{◌≡◌, false, List}
use linux_host_firewall_mana.Prelude.Int.{ℤ, int_lt}
use linux_host_firewall_mana.Prelude.Lists.{All}
use linux_host_firewall_mana.Crates.{Crates}
use linux_host_firewall_mana.Policy.{RuleRow}
use linux_host_firewall_mana.Manager.Db.{Db}
use linux_host_firewall_mana.Manager.RuleGroups.{row_before}

-- a is at most b.
abbrev AtMost : ℤ → ℤ → Type 0
AtMost a b = int_lt b a ≡ false

-- No row stands behind `last`.
abbrev Ends : RuleRow → List RuleRow → Type 0
Ends last = All (λ r. row_before last r ≡ false)
