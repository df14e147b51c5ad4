-- ===== src/Manager/Stale/Laws.antt =====
-- The bands of crates/fw-worker/src/stale_agent_detector.rs.
use linux_host_firewall_mana.Prelude.{ℕ, ◌+◌, ◌*◌, ◌/◌, ◌≤◌, ◌<◌, ◌≡◌, ◌↔◌, some, arith}
use linux_host_firewall_mana.Prelude.Int.{pos}
use linux_host_firewall_mana.Models.{healthy, degraded, unreachable}
use linux_host_firewall_mana.Manager.Stale.{second, elapsed_secs, new_status}

-- For a host with a configured interval of `interval` seconds that checked in `age` nanoseconds ago:
-- it is healthy while the whole seconds of the age are at most twice the interval, degraded while
-- they are more than that and at most four times the interval, and unreachable beyond.
pub new_status_bands :
    (last age interval : ℕ)
    → ((new_status (last + age) (some last) (some (pos interval)) ≡ healthy)
        ↔ (age / second ≤ interval * 2))
      × ((new_status (last + age) (some last) (some (pos interval)) ≡ degraded)
          ↔ ((interval * 2 < age / second) × (age / second ≤ interval * 4)))
      × ((new_status (last + age) (some last) (some (pos interval)) ≡ unreachable)
          ↔ (interval * 4 < age / second))
unfolding new_status elapsed_secs
new_status_bands last age interval = (
  (λ h. ground arith, λ h. ground arith),
  (λ h. ground arith, λ h. ground arith),
  (λ h. ground arith, λ h. ground arith),
)
