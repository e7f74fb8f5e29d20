-- ===== src/Store/Outcome.antt =====
-- internal/sqlite3store/store.go: an operation against the change that it is meant to make.
use go_dhcpd.Base.{List, Option, none, some, Result, ok, err, ◌≡◌, sym, ap, ◌∙◌, subst}
use go_dhcpd.Config.{SubnetConfig}
use go_dhcpd.Store.Rows.{Content, SqlDb}
use go_dhcpd.Store.Directory.{view, IsValid, Conforms}
use go_dhcpd.Store.Effects.{Changes, Refused}

-- The result conforms to the change that is meant, and the tables are well-formed.
abbrev pub Outcome :
    Type 0 → Option (List SubnetConfig) → Content → Result (Unit {0}) × SqlDb → Type 0
Outcome H spec before r = Conforms H spec before r × IsValid r.1.content

module _ (H : Type 0) (spec : Option (List SubnetConfig)) (c : Content) (valid : IsValid c) where
  pub Changes-Outcome :
      (d : Content) (r : Result (Unit {0}) × SqlDb)
      → spec ≡ some (view d)
      → IsValid d
      → Changes H c d r
      → Outcome H spec c r
  Changes-Outcome d (ok u, db) meant v ch =
      ((meant ∙ ap (λ c. some (view c)) (sym ch.0), ch.1), subst IsValid (sym ch.0) v)
  Changes-Outcome d (err e, db) meant v ch =
      ((ap view ch.0, λ u. absurd (ch.1 u), λ u. absurd (ch.1 u)), subst IsValid (sym ch.0) valid)

  pub Refused-Outcome :
      (r : Result (Unit {0}) × SqlDb) → spec ≡ none → Refused H c r → Outcome H spec c r
  Refused-Outcome (ok u, db) meant f = elim f [ ]
  Refused-Outcome (err e, db) meant f =
      ((ap view f.0, λ u. meant, f.1), subst IsValid (sym f.0) valid)
