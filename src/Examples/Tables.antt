-- ===== src/Examples/Tables.antt =====
-- Examples of the lease table and of the allocator.
use go_dhcpd.Base.{
  ◌-◌, ◌+◌, ◌<◌, ◌≡◌, refl, sym, subst, ◌∙◌, [], ◌∷◌, Option, none, some, arith, All, text_eq,
  codes, ok, err, no_lease,
}
use go_dhcpd.Net.{Ip, ipv4, to4}
use go_dhcpd.Net.Print.{parse_ip}
use go_dhcpd.Config.{SubnetConfig, normalize_mac}
use go_dhcpd.Db.{Lease, get_lease_by_ip, get_lease_by_mac}
use go_dhcpd.Db.Rows.{row, UniqueIps}
use go_dhcpd.Db.Queries.{Newest, lookups_run}
use go_dhcpd.Db.Invariant.{IsValid, add, update, expire, run_writes, run_writes-IsValid}
use go_dhcpd.Allocator.{u32, to_uint32, scan_range, allocate_ip, save_lease, release_lease}
use go_dhcpd.Allocator.Scan.{Scanned, scan_range-Scanned, scan_range_endless}
use go_dhcpd.Allocator.Recorded.{Recorded, save_lease-Recorded, Released, release_lease-Released}
use go_dhcpd.Allocator.Pool.{BelowTop, Granted, Served, allocate_ip-Served}
use go_dhcpd.Examples.{quiet, crowded, pool, others, table, allocator}

pub table-UniqueIps : UniqueIps table.leases
unfolding row
table-UniqueIps = (refl, tt)

pool_end : parse_ip pool.end_address ≡ some (ipv4 10 0 0 20)
unfolding parse_ip
pool_end = refl

some_inj : (x y : Ip) → some x ≡ some y → x ≡ y
some_inj x y e = cc

pub subnets-BelowTop : All (λ (s : SubnetConfig). All BelowTop s.dynamic_ranges) allocator.subnets
unfolding to4 text_eq
subnets-BelowTop = (
  (
    λ last e.
        subst (λ x. to_uint32 (to4 x) + 1 < u32) (some_inj (ipv4 10 0 0 20) last (sym pool_end ∙ e))
          (omega arith),
    tt,
  ),
  tt,
)

lookups_run_example :
    (get_lease_by_ip (codes "10.0.0.10") table ≡ (ok (row (codes "10.0.0.10") table.leases), table))
    × ((o : Option Lease) × (get_lease_by_mac (codes "02:00:00:00:00:22") table ≡ (ok o, table))
        × Newest (codes "02:00:00:00:00:22") table.leases o)
lookups_run_example =
    lookups_run (codes "10.0.0.10") (codes "02:00:00:00:00:22") table table-UniqueIps refl

abbrev renewed : Lease
renewed = record others { lease_end = 2500 }

run_writes-IsValid_example :
    IsValid (run_writes (add others ∷ update renewed ∷ expire 3000 ∷ []) table)
run_writes-IsValid_example =
    run_writes-IsValid (add others ∷ update renewed ∷ expire 3000 ∷ []) table
      (record { unique = table-UniqueIps; ids = (omega arith, tt) })

scan_range-Scanned_example :
    Scanned quiet
      (codes "02:00:00:00:00:11")
      167772170
      167772180
      allocator
      (scan_range quiet 12 167772170 167772180 (codes "02:00:00:00:00:11") allocator)
scan_range-Scanned_example =
    scan_range-Scanned quiet (codes "02:00:00:00:00:11") 12 167772170 167772180 allocator
      (omega arith) (omega arith) (omega arith)

scan_range_endless_example :
    scan_range crowded 5 4294967290 (u32 - 1) (codes "02:00:00:00:00:11") allocator ≡ none
scan_range_endless_example =
    scan_range_endless crowded 5 4294967290 (codes "02:00:00:00:00:11") allocator (λ s k. refl)
      (omega arith)

save_lease-Recorded_example : Recorded renewed allocator (save_lease renewed allocator)
save_lease-Recorded_example = save_lease-Recorded renewed allocator table-UniqueIps

release_lease-Released_example :
    Released quiet
      (normalize_mac (codes "02:00:00:00:00:22"))
      (err no_lease)
      allocator
      (release_lease quiet (codes "02:00:00:00:00:22") allocator)
release_lease-Released_example =
    release_lease-Released quiet (codes "02:00:00:00:00:22") allocator table-UniqueIps

allocate_ip-Served_example :
    Served
      (Granted quiet (normalize_mac (codes "02:00:00:00:00:11")) none allocator)
      allocator
      (allocate_ip quiet 4294967297 (codes "02:00:00:00:00:11") none allocator)
allocate_ip-Served_example =
    allocate_ip-Served quiet (codes "02:00:00:00:00:11") none allocator 4294967297 table-UniqueIps
      subnets-BelowTop (omega arith)
