-- ===== src/Manager/Assign/Unassign.antt =====
-- What taking a policy set away leaves, by crates/fw-web/src/routes/deployment.rs.
use linux_host_firewall_mana.Prelude.{
  ℕ, String, ◌≡◌, refl, Bool, true, false, not, Option, List, [], ◌∷◌, arith, Bool-cases, inl, inr,
  ok,
}
use linux_host_firewall_mana.Prelude.Lists.{All, any, keep, length}
use linux_host_firewall_mana.Crates.{Crates}
use linux_host_firewall_mana.Auth.Rbac.{AuthUser, can_write}
use linux_host_firewall_mana.Manager.Db.{Assignment, Db}
use linux_host_firewall_mana.Manager.Assign.{
  AssignRequest, resolve_host_ids, is_assignment, unassign_host, unassign_hosts,
  unassign_policy_set,
}

any-keep :
    (p q : Assignment → Bool) (rows : List Assignment)
    → any p rows ≡ false
    → any p (keep q rows) ≡ false
any-keep p q [] h = refl
any-keep p q (a ∷ rows) h = elim (Bool-cases (q a)) [
  | inl kept ↦ rw kept (ground (arith, any-keep p q rows))
  | inr gone ↦ rw gone (any-keep p q rows (ground arith))
]

any-keep-not :
    (p : Assignment → Bool) (rows : List Assignment) → any p (keep (λ a. not (p a)) rows) ≡ false
any-keep-not p [] = refl
any-keep-not p (a ∷ rows) = elim (Bool-cases (p a)) [
  | inl gone ↦ rw gone (any-keep-not p rows)
  | inr kept ↦ rw kept (rw kept (any-keep-not p rows))
]

module _ (c : Crates) (stored : ℕ → ℕ) (now : ℕ) (ip_text : Option String) (auth : AuthUser) where
  -- The set is not assigned to the host.
  abbrev pub IsFree : ℕ → Db → ℕ → Type 0
  IsFree set db host = any (is_assignment host set) db.host_policy_assignments ≡ false

  unassign_hosts-keeps :
      (set h : ℕ) (hosts : List ℕ) (db : Db)
      → IsFree set db h
      → IsFree set (unassign_hosts c stored now ip_text auth set hosts db) h
  unfolding unassign_hosts unassign_host
  unassign_hosts-keeps set h [] db free = free
  unassign_hosts-keeps set h (host ∷ hosts) db free =
      unassign_hosts-keeps set h hosts _
        (any-keep (is_assignment h set) _ db.host_policy_assignments free)

  unassign_hosts-IsFree :
      (set : ℕ) (hosts : List ℕ) (db : Db)
      → All (IsFree set (unassign_hosts c stored now ip_text auth set hosts db)) hosts
  unfolding unassign_hosts unassign_host
  unassign_hosts-IsFree set [] db = tt
  unassign_hosts-IsFree set (host ∷ hosts) db = (
    unassign_hosts-keeps set host hosts _
        (any-keep-not (is_assignment host set) db.host_policy_assignments),
    unassign_hosts-IsFree set hosts _,
  )

  -- A user whose role may write takes a set away from every host of the request, named or by group,
  -- whether or not the user may act on that host: the answer counts them, and the set is assigned to
  -- none of them afterwards.
  pub unassign_policy_set_ok :
      (req : AssignRequest) (db : Db)
      → can_write auth.role ≡ true
      → ((unassign_policy_set c stored now ip_text auth req db).0
          ≡ ok (length (resolve_host_ids db req.host_ids req.group_ids)))
        × All
            (IsFree req.policy_set_id (unassign_policy_set c stored now ip_text auth req db).1)
            (resolve_host_ids db req.host_ids req.group_ids)
  unfolding unassign_policy_set
  unassign_policy_set_ok req db writer = rw writer (
    refl,
    unassign_hosts-IsFree req.policy_set_id (resolve_host_ids db req.host_ids req.group_ids) db,
  )
