-- ===== src/Agent/Detect.antt =====
-- `detect` of crates/fw-agent/src/backend/mod.rs: which backend is active on the host.
use linux_host_firewall_mana.Prelude.{
  String, Bool, false, Option, none, some, [], ◌∷◌, ◌==◌, if◌then◌else◌,
}
use linux_host_firewall_mana.Prelude.Text.{trim, contains}
use linux_host_firewall_mana.Crates.{Crates}
use linux_host_firewall_mana.Agent.Os.{spawn, Output, done, failed, Env, Os, ◌>>=◌, ◌>>◌, pure}
use linux_host_firewall_mana.Agent.Backend.{FirewallBackend, which, detect_container_runtime}
use linux_host_firewall_mana.Agent.Ufw.{ufw_backend}
use linux_host_firewall_mana.Agent.Firewalld.{firewalld_backend}

abbrev stdout_of : Output → String → (String → Bool) → Bool
stdout_of (done success out warnings) h p = p out
stdout_of (failed e) h p = false

module _ (c : Crates) (e : Env) where
  -- The exit status is not read.
  ask : String → String → (String → Bool) → Os Bool
  ask cmd arg p h = (stdout_of (e.output h cmd (arg ∷ [])) cmd p, spawn cmd (arg ∷ []) ∷ h)

  unfoldable pub ufw_is_active : Os Bool
  unfolding ask contains
  ufw_is_active = ask "ufw" "status" (contains "Status: active")

  unfoldable pub firewalld_is_active : Os Bool
  unfolding ask trim
  firewalld_is_active = ask "firewall-cmd" "--state" (λ out. trim out == "running")

  -- `which(cmd) && is_active()`: the second is asked only if the first holds.
  both : Os Bool → Os Bool → Os Bool
  both p q = p >>= λ found. if found then q else pure false

  try_firewalld : Os (Option FirewallBackend)
  unfolding both which firewalld_is_active
  try_firewalld = do
    active ← both (which e "firewall-cmd") firewalld_is_active
    pure (if active then some (firewalld_backend c e) else none)

  unfoldable pub detect : Os (Option FirewallBackend)
  unfolding both which ufw_is_active try_firewalld detect_container_runtime
  detect = do
    detect_container_runtime e
    active ← both (which e "ufw") ufw_is_active
    if active then pure (some (ufw_backend c e)) else try_firewalld
