-- ===== src/Store/Changes.antt =====
-- internal/sqlite3store/store.go: changes of the subnets, one after the other.
use go_dhcpd.Base.{
  List, [], ◌∷◌, Option, none, some, Result, ok, err, sort_rows, ◌≡◌, refl, sym, ap, ◌∙◌,
}
use go_dhcpd.Config.{SubnetConfig}
use go_dhcpd.Store.Rows.{Content, SqlDb}
use go_dhcpd.Store.Directory.{
  Change, insert, update, delete, apply, perform, view, IsValid, Conforms,
}
use go_dhcpd.Store.Outcome.{Outcome}
use go_dhcpd.Store.Subnets.{get_subnets}
use go_dhcpd.Store.Reads.{by_network, get_subnets-sorted}
use go_dhcpd.Store.Insert.{insert_subnet-Outcome}
use go_dhcpd.Store.Update.{update_subnet-Outcome}
use go_dhcpd.Store.Delete.{delete_subnet-Outcome}

pub perform-Outcome :
    (ch : Change) (db : SqlDb)
    → IsValid db.content
    → Outcome (db.faults ≡ []) (apply ch (view db.content)) db.content (perform ch db)
unfolding perform
perform-Outcome (insert s) db v = insert_subnet-Outcome s db v
perform-Outcome (update s) db v = update_subnet-Outcome s db v
perform-Outcome (delete network) db v = delete_subnet-Outcome network db v

-- The change was made, or the list is as it was.
abbrev pub AllOrNothing : Option (List SubnetConfig) → Content → Result (Unit {0}) × SqlDb → Type 0
AllOrNothing spec before (ok u, db) = spec ≡ some (view db.content)
AllOrNothing spec before (err e, db) = view db.content ≡ view before

-- On well-formed tables, and with any of its statements failing, an insertion, update or deletion of
-- a subnet leaves the tables well-formed. If it succeeds, they stand for the list of subnets changed
-- as meant: the subnet appended when its network was new, put in the place of the one with its
-- network, or the one with the network removed. If it fails, they stand for the same list as before.
pub perform-AllOrNothing :
    (ch : Change) (db : SqlDb)
    → IsValid db.content
    → AllOrNothing (apply ch (view db.content)) db.content (perform ch db)
      × IsValid (perform ch db).1.content
perform-AllOrNothing ch db v =
    (go (perform ch db) (perform-Outcome ch db v).0, (perform-Outcome ch db v).1)
  where
    go :
        (r : Result (Unit {0}) × SqlDb)
        → Conforms (db.faults ≡ []) (apply ch (view db.content)) db.content r
        → AllOrNothing (apply ch (view db.content)) db.content r
    go (ok u, db') k = k.0
    go (err e, db') k = k.0

unfoldable pub perform_all : List Change → SqlDb → SqlDb
unfolding perform
perform_all [] db = db
perform_all (ch ∷ chs) db = perform_all chs (perform ch db).1

unfoldable pub or_same : Option (List SubnetConfig) → List SubnetConfig → List SubnetConfig
or_same none d = d
or_same (some d') d = d'

unfoldable pub apply_all : List Change → List SubnetConfig → List SubnetConfig
unfolding apply or_same
apply_all [] d = d
apply_all (ch ∷ chs) d = apply_all chs (or_same (apply ch d) d)

one_change :
    (ch : Change) (db : SqlDb)
    → IsValid db.content
    → db.faults ≡ []
    → (view (perform ch db).1.content ≡ or_same (apply ch (view db.content)) (view db.content))
      × ((perform ch db).1.faults ≡ [])
unfolding or_same
one_change ch db v healthy =
    go (apply ch (view db.content)) (perform ch db) (perform-Outcome ch db v).0
  where
    go :
        (spec : Option (List SubnetConfig)) (r : Result (Unit {0}) × SqlDb)
        → Conforms (db.faults ≡ []) spec db.content r
        → (view r.1.content ≡ or_same spec (view db.content)) × (r.1.faults ≡ [])
    go spec (ok u, db') k = (ap (λ o. or_same o (view db.content)) (sym k.0), k.1 healthy)
    go spec (err e, db') k =
        (k.0 ∙ ap (λ o. or_same o (view db.content)) (sym (k.1 healthy)), k.2 healthy)

perform_all-Applied :
    (chs : List Change) (db : SqlDb)
    → IsValid db.content
    → db.faults ≡ []
    → (view (perform_all chs db).content ≡ apply_all chs (view db.content))
      × ((perform_all chs db).faults ≡ [])
unfolding perform_all apply_all
perform_all-Applied [] db v healthy = (refl, healthy)
perform_all-Applied (ch ∷ chs) db v healthy =
    let step = one_change ch db v healthy in
    let rest = perform_all-Applied chs (perform ch db).1 (perform-Outcome ch db v).1 step.1 in
    (rest.0 ∙ ap (apply_all chs) step.0, rest.1)

-- On well-formed tables, with every statement run, `GetSubnets` after any sequence of insertions,
-- updates and deletions returns, sorted by network, the list of subnets on which the same changes
-- were made in the same order, a change that is refused making none; it leaves the database as it
-- is.
pub get_subnets-perform_all :
    (chs : List Change) (db : SqlDb)
    → IsValid db.content
    → db.faults ≡ []
    → get_subnets (perform_all chs db)
      ≡ (ok (sort_rows by_network (apply_all chs (view db.content))), perform_all chs db)
get_subnets-perform_all chs db v healthy =
    let (same, still) = perform_all-Applied chs db v healthy in
    get_subnets-sorted (perform_all chs db) still ∙ λ i.
    (ok (sort_rows by_network (same i)), perform_all chs db)
