-- ===== src/AedtPool/Compat.antt =====
-- `_lease_fits_session`: whether a lease may share a session with its occupants.
use slurm_scheduler.Prelude.{
  ℕ, ◌+◌, Bool, not, ◌&&◌, ◌||◌, is_some, List, any, is_empty, String, ltb, leb, ◌==◌, str_eq,
  if◌then◌else◌,
}
use slurm_scheduler.AedtPool.{Lease, Session, Reservation}

abbrev all_of {ℓ} : {A : Type ℓ} → (A → Bool) → List A → Bool
all_of test xs = not (any (λ x. not (test x)) xs)

-- `str(item["isolation_policy"] or "family")`
abbrev policy_of : Lease → String
policy_of l = if str_eq l.isolation_policy "" then "family" else l.isolation_policy

abbrev pub is_pinned_here : Lease → Session → Bool
is_pinned_here l s =
    (l.requested_session_id == 0
      || (s.id == l.requested_session_id && s.generation == l.requested_session_generation))
    && (l.mixed_canary_session_id == 0 || s.id == l.mixed_canary_session_id)

abbrev same_admission : Lease → List Lease → Bool
same_admission l = all_of (λ o. o.mixed_canary_admission_id == l.mixed_canary_admission_id)

abbrev same_profile : Lease → Session → List Lease → Bool
same_profile l s others =
    str_eq s.session_profile l.session_profile
    && all_of (λ o. leb 2 o.protocol_version && str_eq o.session_profile l.session_profile) others

abbrev is_shared : String
is_shared = "shared_if_compatible"

-- The isolation policy of a lease of protocol 2.
abbrev isolates : Lease → List Lease → List Reservation → Bool
isolates l others pending =
    all_of
      (λ r.
        not (str_eq r.workload_family "")
        && not (str_eq r.isolation_policy "")
        && str_eq r.session_profile l.session_profile)
      pending
    && (if str_eq (policy_of l) "family"
        then all_of
            (λ o. str_eq (policy_of o) "family" && str_eq o.workload_family l.workload_family)
            others
          && all_of
              (λ r.
                str_eq r.isolation_policy "family" && str_eq r.workload_family l.workload_family)
              pending
        else if str_eq (policy_of l) is_shared
        then all_of (λ o. leb 2 o.protocol_version && str_eq (policy_of o) is_shared) others
          && all_of (λ r. str_eq r.isolation_policy is_shared) pending
        else is_empty others && is_empty pending)

-- A lease of the older protocol shares a session with its own placement group alone.
abbrev groups : Lease → List Lease → List Reservation → Bool
groups l others pending =
    is_empty pending
    && all_of (λ o. ltb o.protocol_version 2 && str_eq o.placement_group l.placement_group) others

unfoldable pub lease_fits_session : Lease → Session → ℕ → List Lease → ℕ → List Reservation → Bool
lease_fits_session l s used_slots others reserved_slots_for_others pending =
    ltb (used_slots + reserved_slots_for_others) s.slots_total
    && not (is_some s.reuse_blocked_at)
    && not (any (λ o. o.exclusive_session) others)
    && not (l.exclusive_session && not (is_empty others))
    && is_pinned_here l s
    && same_admission l others
    && (if ltb l.protocol_version 2
        then groups l others pending
        else same_profile l s others && isolates l others pending)
