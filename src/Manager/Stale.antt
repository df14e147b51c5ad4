-- ===== src/Manager/Stale.antt =====
-- crates/fw-worker/src/stale_agent_detector.rs: the health of a host from the age of its last
-- check-in. Times are nanoseconds.
pub mod Laws
use linux_host_firewall_mana.Prelude.{
  ℕ, suc, ◌-◌, ◌*◌, ◌/◌, Bool, true, false, not, ◌||◌, Option, none, some, List, [], ◌∷◌, map,
  nat_eq, ltb, leb, if◌then◌else◌, unwrap_or, is_some,
}
use linux_host_firewall_mana.Prelude.Int.{ℤ, pos, negsuc, int_lt}
use linux_host_firewall_mana.Models.{HostHealthStatus, pending, healthy, degraded, unreachable}
use linux_host_firewall_mana.Manager.Db.{HostRow, CheckInRow, ConfigOverride, Db}

abbrev pub times : ℕ → ℤ → ℤ
times k (pos n) = pos (n * k)
times k (negsuc n) = negsuc (suc n * k - 1)

abbrev pub minus : ℕ → ℤ
minus n = if nat_eq n 0 then pos 0 else negsuc (n - 1)

abbrev pub second : ℕ
second = 1000000000

-- `(now - last).num_seconds()`, rounded towards zero.
unfoldable pub elapsed_secs : ℕ → ℕ → ℤ
elapsed_secs now last =
    if leb last now then pos ((now - last) / second) else minus ((last - now) / second)

unfoldable pub new_status : ℕ → Option ℕ → Option ℤ → HostHealthStatus
unfolding elapsed_secs
new_status now none interval_secs = pending
new_status now (some last) interval_secs =
    let interval = unwrap_or interval_secs (pos 900) in
    let elapsed = elapsed_secs now last in
    if int_lt (times 4 interval) elapsed
    then unreachable
    else if int_lt (times 2 interval) elapsed
    then degraded
    else healthy

abbrev pub later : ℕ → Option ℕ → Option ℕ
later t none = some t
later t (some u) = if ltb t u then some u else some t

-- `MAX(ac.checked_in_at)` over the host's check-ins.
unfoldable pub last_check_in : ℕ → List CheckInRow → Option ℕ
last_check_in host [] = none
last_check_in host (r ∷ rows) =
    let rest = last_check_in host rows in
    if nat_eq r.host_id host then later r.checked_in_at rest else rest

unfoldable pub interval_of : ℕ → List ConfigOverride → Option ℤ
interval_of host [] = none
interval_of host (o ∷ rows) =
    let next = interval_of host rows in
    if nat_eq o.host_id host then some o.check_in_interval_secs else next

abbrev pub is_unreachable : HostHealthStatus → Bool
is_unreachable unreachable = true
is_unreachable _ = false

-- `WHERE h.health_status != 'unreachable' OR h.last_health_at IS NULL`
abbrev pub is_polled : HostRow → Bool
is_polled h = not (is_unreachable h.health_status) || not (is_some h.last_health_at)

-- The row of one host after the round.
unfoldable pub refresh : ℕ → Db → HostRow → HostRow
refresh now db h =
    if is_polled h
    then record h {
      health_status =
          new_status now (last_check_in h.id db.agent_check_ins)
            (interval_of h.id db.host_config_overrides);
    }
    else h

unfoldable pub detect_stale_agents : ℕ → Db → Db
detect_stale_agents now db = record db { hosts = map (refresh now db) db.hosts }
