-- ===== src/Store/Rows.antt =====
-- internal/sqlite3store/store.go: the tables of the configuration database, one statement, and a
-- transaction. A statement that SQLite cannot run is a fault; `faults` says of the statements to
-- come, in order, which fail, and of those after its end that they run.
use go_dhcpd.Base.{
  ℕ, Bool, List, [], ◌∷◌, Option, ◌==◌, if◌then◌else◌, Text, ℤ, storage, Result, ok, err, Exec,
  ◌>>◌,
}
use go_dhcpd.Config.{SubnetConfig, DynamicRange}

-- The tables of `stringListBindings`.
pub data ListTable : Type 0 where
  subnet_domain_name_servers subnet_domain_search subnet_ntp_servers subnet_time_servers : ListTable
  subnet_smtp_servers subnet_lpr_servers subnet_netbios_name_servers : ListTable
  subnet_netbios_dd_servers subnet_routers : ListTable

abbrev pub number : ListTable → ℕ
number subnet_domain_name_servers = 0
number subnet_domain_search = 1
number subnet_ntp_servers = 2
number subnet_time_servers = 3
number subnet_smtp_servers = 4
number subnet_lpr_servers = 5
number subnet_netbios_name_servers = 6
number subnet_netbios_dd_servers = 7
number subnet_routers = 8

abbrev pub same_table : ListTable → ListTable → Bool
same_table t u = number t == number u

-- `stringListBinding`
pub record Binding : Type 0 where
  pub table : ListTable
  pub get : SubnetConfig → List Text
  pub set : SubnetConfig → List Text → SubnetConfig

-- `stringListBindings`
abbrev pub string_list_bindings : List Binding
string_list_bindings =
    (record {
      table = subnet_domain_name_servers;
      get = λ s. s.domain_name_servers;
      set = λ s v. record s { domain_name_servers = v };
    })
    ∷ (record {
      table = subnet_domain_search;
      get = λ s. s.domain_search;
      set = λ s v. record s { domain_search = v };
    })
    ∷ (record {
      table = subnet_ntp_servers;
      get = λ s. s.ntp_servers;
      set = λ s v. record s { ntp_servers = v };
    })
    ∷ (record {
      table = subnet_time_servers;
      get = λ s. s.time_servers;
      set = λ s v. record s { time_servers = v };
    })
    ∷ (record {
      table = subnet_smtp_servers;
      get = λ s. s.smtp_servers;
      set = λ s v. record s { smtp_servers = v };
    })
    ∷ (record {
      table = subnet_lpr_servers;
      get = λ s. s.lpr_servers;
      set = λ s v. record s { lpr_servers = v };
    })
    ∷ (record {
      table = subnet_netbios_name_servers;
      get = λ s. s.netbios_name_servers;
      set = λ s v. record s { netbios_name_servers = v };
    })
    ∷ (record {
      table = subnet_netbios_dd_servers;
      get = λ s. s.netbios_dd_servers;
      set = λ s v. record s { netbios_dd_servers = v };
    })
    ∷ (record {
      table = subnet_routers;
      get = λ s. s.routers;
      set = λ s v. record s { routers = v };
    })
    ∷ []

-- A NULL column is `none`.
pub record SubnetRow : Type 0 where
  pub id : ℕ
  pub network : Text
  pub netmask : Text
  pub enable_bootp : ℤ
  pub next_server : Option Text
  pub server_hostname : Option Text
  pub boot_filename : Option Text
  pub netbios_node_type : Option ℤ
  pub domain_name : Option Text
  pub interface_mtu : Option ℤ

-- A row of `subnet_dynamic_ranges`, whose value is the two addresses, or of a string-list table.
pub record Child (A : Type 0) : Type 0 where
  pub subnet_id : ℕ
  pub position : ℕ
  pub value : A

pub record HostRow : Type 0 where
  pub id : ℕ
  pub mac_address : Text
  pub ip_address : Text
  pub hostname : Option Text

-- `next_subnet` and `next_host` are the sequences of the AUTOINCREMENT keys. `foreign_keys` is the
-- setting of the connection.
pub record Content : Type 0 where
  pub foreign_keys : Bool
  pub subnets : List SubnetRow
  pub next_subnet : ℕ
  pub ranges : List (Child DynamicRange)
  pub values : ListTable → List (Child Text)
  pub hosts : List HostRow
  pub next_host : ℕ

-- A database with tables `C`.
pub record Faulty (C : Type 0) : Type 0 where
  pub content : C
  pub faults : List Bool

abbrev pub SqlDb : Type 0
SqlDb = Faulty Content

abbrev pub Query : Type 0 → Type 0
Query = Exec SqlDb

-- What a statement does to the tables.
abbrev pub Statement : Type 0 → Type 0
Statement A = Content → Result A × Content

module _ {C : Type 0} where
  abbrev pub with_faults : {A : Type 0} → List Bool → Result A × C → Result A × Faulty C
  with_faults fs (r, c) = (r, record { content = c; faults = fs })

  unfoldable pub attempt : {A : Type 0} → List Bool → (C → Result A × C) → Exec (Faulty C) A
  attempt [] q db = with_faults [] (q db.content)
  attempt (fails ∷ rest) q db =
      if fails then (err storage, record db { faults = rest }) else with_faults rest (q db.content)

  -- `Exec`, `Query` or `QueryRow` of one statement.
  unfoldable pub statement : {A : Type 0} → (C → Result A × C) → Exec (Faulty C) A
  unfolding attempt
  statement q db = attempt db.faults q db

-- `defer tx.Rollback()`: after an error the tables are again what they were.
unfoldable pub settle : {A : Type 0} → Content → Result A × SqlDb → Result A × SqlDb
settle before (ok a, db) = (ok a, db)
settle before (err e, db) = (err e, record db { content = before })

-- `BEGIN` and `COMMIT` may fail like any statement.
unfoldable pub tx_control : Statement (Unit {0})
tx_control c = (ok tt, c)

unfoldable pub transaction : Query (Unit {0}) → Query (Unit {0})
unfolding settle statement tx_control
transaction body db = settle db.content ((statement tx_control >> body >> statement tx_control) db)
