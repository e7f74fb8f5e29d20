-- ===== src/Store/Valid.antt =====
-- internal/sqlite3store/store.go: well-formed tables stay so under each of the statements that write.
use go_dhcpd.Base.{
  ℕ, suc, ◌+◌, ◌<◌, true, false, List, [], ◌∷◌, ◌++◌, map, ◌==◌, ==_iff, if◌then◌else◌, keep, any,
  All, All-append, All-keep, All-implies, any-append, not_any, keep-none, Bool-cases, inl, inr,
  text_eq, text_eq_iff, ◌≡◌, refl, sym, ◌∙◌, subst, arith,
}
use go_dhcpd.Config.{SubnetConfig}
use go_dhcpd.Store.Rows.{SubnetRow, Child, Content}
use go_dhcpd.Store.Children.{child_of, has_id}
use go_dhcpd.Store.Subnets.{has_network, new_row}
use go_dhcpd.Store.Lists.{numbered, wrote, emptied}
use go_dhcpd.Store.Directory.{list_of, Differs, Apart, Owned, IsValid}
use go_dhcpd.Store.Wrote.{wrote-values, emptied-values, Childless}

-- The sequence has not reached the next id.
pub next_free :
    (n : ℕ) (rows : List SubnetRow) → All (λ r. r.id < n) rows → any (has_id n) rows ≡ false
next_free n rows h = not_any (has_id n) rows (
    All-implies (λ (r : SubnetRow). r.id < n) (λ r. has_id n r ≡ false) rows
      (λ r (lt : r.id < n). ground arith) h)

module _ {A : Type 0} where
  numbered-Owned :
      (rows : List SubnetRow) (id i : ℕ) (vs : List A)
      → any (has_id id) rows ≡ true
      → All (Owned rows) (numbered id i vs)
  unfolding numbered
  numbered-Owned rows id i [] h = tt
  numbered-Owned rows id i (v ∷ vs) h = (h, numbered-Owned rows id (suc i) vs h)

  Owned-append :
      (rows : List SubnetRow) (r : SubnetRow) (children : List (Child A))
      → All (Owned rows) children
      → All (Owned (rows ++ (r ∷ []))) children
  Owned-append rows r children =
      All-implies (Owned rows) (Owned (rows ++ (r ∷ []))) children
        λ (ch : Child A) (h : any (has_id ch.subnet_id) rows ≡ true).
          ground (arith, any-append (has_id ch.subnet_id) rows (r ∷ []))

  Owned-none :
      (n : ℕ) (rows : List SubnetRow) (children : List (Child A))
      → any (has_id n) rows ≡ false
      → All (Owned rows) children
      → keep (child_of n) children ≡ []
  Owned-none n rows children free h = keep-none (child_of n) children (
      All-implies (Owned rows) (λ ch. child_of n ch ≡ false) children
        (λ (ch : Child A) (own : any (has_id ch.subnet_id) rows ≡ true).
          elim (Bool-cases (child_of n ch)) [
            | inl e ↦
                let here : any (has_id n) rows ≡ true =
                  subst (λ m. any (has_id m) rows ≡ true) ((==_iff ch.subnet_id n).0 e) own in
                cc
            | inr e ↦ e
          ])
        h)

pub Childless-next :
    (n : ℕ) (c : Content) → IsValid c → any (has_id n) c.subnets ≡ false → Childless n c
Childless-next n c v free = record {
  no_ranges = Owned-none n c.subnets c.ranges free v.ranges_owned;
  no_values = λ t. Owned-none n c.subnets (c.values t) free (v.values_owned t);
}

pub wrote-IsValid :
    (id : ℕ) (s : SubnetConfig) (c : Content)
    → IsValid c
    → any (has_id id) c.subnets ≡ true
    → IsValid (wrote id s c)
unfolding wrote
wrote-IsValid id s c v parent = record {
  enforced = v.enforced;
  apart = v.apart;
  ids = v.ids;
  ranges_owned =
      All-append (Owned c.subnets) c.ranges _ v.ranges_owned
        (numbered-Owned c.subnets id 0 s.dynamic_ranges parent);
  values_owned = λ t. subst (All (Owned c.subnets)) (sym (wrote-values id s c t)) (
      All-append (Owned c.subnets) (c.values t) _ (v.values_owned t)
        (numbered-Owned c.subnets id 0 (list_of s t) parent));
}

pub emptied-IsValid : (id : ℕ) (c : Content) → IsValid c → IsValid (emptied id c)
unfolding emptied
emptied-IsValid id c v = record {
  enforced = v.enforced;
  apart = v.apart;
  ids = v.ids;
  ranges_owned = All-keep (Owned c.subnets) _ c.ranges v.ranges_owned;
  values_owned = λ t.
      subst (All (Owned c.subnets)) (sym (emptied-values id c t))
        (All-keep (Owned c.subnets) _ (c.values t) (v.values_owned t));
}

Differs-all :
    (r : SubnetRow) (rows : List SubnetRow)
    → any (has_id r.id) rows ≡ false
    → any (has_network r.network) rows ≡ false
    → All (λ s. Differs s r) rows
Differs-all r [] h k = tt
Differs-all r (s ∷ rows) h k = (
  (ground arith, ground (arith, text_eq_iff s.network r.network, text_eq_iff r.network s.network)),
  Differs-all r rows (ground arith) (ground arith),
)

Apart-append :
    (rows : List SubnetRow) (r : SubnetRow)
    → Apart rows
    → All (λ s. Differs s r) rows
    → Apart (rows ++ (r ∷ []))
Apart-append [] r a h = (tt, tt)
Apart-append (s ∷ rows) r a h =
    (All-append (Differs s) rows (r ∷ []) a.0 (h.0, tt), Apart-append rows r a.1 h.1)

-- The tables after the INSERT of a subnet whose network is new.
unfoldable pub with_row : SubnetConfig → Content → Content
with_row s c = record c {
  subnets = c.subnets ++ (new_row c.next_subnet s ∷ []);
  next_subnet = c.next_subnet + 1;
}

pub with_row-IsValid :
    (s : SubnetConfig) (c : Content)
    → IsValid c
    → any (has_network s.network) c.subnets ≡ false
    → IsValid (with_row s c)
unfolding with_row
with_row-IsValid s c v free = record {
  enforced = v.enforced;
  apart = Apart-append c.subnets (new_row c.next_subnet s) v.apart (
      Differs-all (new_row c.next_subnet s) c.subnets (next_free c.next_subnet c.subnets v.ids)
        free);
  ids =
      All-append (λ r. r.id < c.next_subnet + 1) c.subnets _
        (All-implies (λ (r : SubnetRow). r.id < c.next_subnet) (λ r. r.id < c.next_subnet + 1)
          c.subnets (λ r (lt : r.id < c.next_subnet). omega arith) v.ids)
        (omega arith, tt);
  ranges_owned = Owned-append c.subnets _ c.ranges v.ranges_owned;
  values_owned = λ t. Owned-append c.subnets _ (c.values t) (v.values_owned t);
}

-- A map of the rows that keeps ids and networks.
module _ (f : SubnetRow → SubnetRow)
    (same : (r : SubnetRow) → ((f r).id ≡ r.id) × ((f r).network ≡ r.network)) where
  pub any_id-map :
      (n : ℕ) (rows : List SubnetRow) → any (has_id n) (map f rows) ≡ any (has_id n) rows
  any_id-map n [] = refl
  any_id-map n (r ∷ rows) = λ i. if (same r).0 i == n then true else any_id-map n rows i

  Differs-map :
      (r : SubnetRow) (rows : List SubnetRow)
      → All (Differs r) rows
      → All (Differs (f r)) (map f rows)
  Differs-map r [] h = tt
  Differs-map r (s ∷ rows) h =
      let id : ((f s).id == (f r).id) ≡ (s.id == r.id) = λ i. (same s).0 i == (same r).0 i in
      let network : has_network (f r).network (f s) ≡ has_network r.network s =
        λ i. text_eq ((same s).1 i) ((same r).1 i) in
      ((id ∙ h.0.0, network ∙ h.0.1), Differs-map r rows h.1)

  Apart-map : (rows : List SubnetRow) → Apart rows → Apart (map f rows)
  Apart-map [] a = tt
  Apart-map (r ∷ rows) a = (Differs-map r rows a.0, Apart-map rows a.1)

  ids-map :
      (n : ℕ) (rows : List SubnetRow) → All (λ r. r.id < n) rows → All (λ r. r.id < n) (map f rows)
  ids-map n [] h = tt
  ids-map n (r ∷ rows) h = (rw (same r).0 h.0, ids-map n rows h.1)

  Owned-map :
      {A : Type 0} (rows : List SubnetRow) (children : List (Child A))
      → All (Owned rows) children
      → All (Owned (map f rows)) children
  Owned-map rows children =
      All-implies (Owned rows) (Owned (map f rows)) children
        λ ch own. any_id-map ch.subnet_id rows ∙ own

  pub map-IsValid : (c : Content) → IsValid c → IsValid (record c { subnets = map f c.subnets })
  map-IsValid c v = record {
    enforced = v.enforced;
    apart = Apart-map c.subnets v.apart;
    ids = ids-map c.next_subnet c.subnets v.ids;
    ranges_owned = Owned-map c.subnets c.ranges v.ranges_owned;
    values_owned = λ t. Owned-map c.subnets (c.values t) (v.values_owned t);
  }
