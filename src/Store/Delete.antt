-- ===== src/Store/Delete.antt =====
-- internal/sqlite3store/store.go: `DeleteSubnet` against the list of subnets that the tables stand for.
use go_dhcpd.Base.{
  ℕ, Bool, true, false, not, ◌&&◌, List, [], ◌∷◌, Option, none, some, ◌==◌, ==_iff, keep, any, All,
  All-keep, All-keep_when, All-implies, any_none, not_any, keep-none, keep-all, keep-map, keep-keep,
  map-eq, Bool-cases, inl, inr, Text, and_then, ◌≡◌, sym, ap, ◌∙◌, ◌<◌, subst, arith, length,
}
use go_dhcpd.Config.{SubnetConfig}
use go_dhcpd.Store.Rows.{SubnetRow, Child, Content, SqlDb}
use go_dhcpd.Store.Children.{has_id, child_of}
use go_dhcpd.Store.Subnets.{has_network, stays, delete_rows, require_rows, delete_subnet}
use go_dhcpd.Store.Directory.{Change, apply, named, view, loaded, Differs, Apart, Owned, IsValid}
use go_dhcpd.Store.Effects.{statement-cases}
use go_dhcpd.Store.Outcome.{Outcome}
use go_dhcpd.Store.Wrote.{loaded-keep}
use go_dhcpd.Store.Insert.{any-view}

abbrev both : Text → ℕ → SubnetRow → Bool
both network id r = has_network network r && has_id id r

-- No row with the network has the id of a row without it.
unshared :
    (network : Text) (rows : List SubnetRow)
    → Apart rows
    → All (λ r. has_network network r ≡ false → any (both network r.id) rows ≡ false) rows
unshared network [] a = tt
unshared network (h ∷ rows) a =
    (λ e. ground (arith, tail), All-zip rows a.0 (unshared network rows a.1))
  where
    tail : any (both network h.id) rows ≡ false
    tail =
        not_any (both network h.id) rows
          (All-implies (Differs h) _ rows (λ q (d : Differs h q). ground arith) a.0)

    All-zip :
        (qs : List SubnetRow)
        → All (Differs h) qs
        → All (λ r. has_network network r ≡ false → any (both network r.id) rows ≡ false) qs
        → All (λ r. has_network network r ≡ false → any (both network r.id) (h ∷ rows) ≡ false) qs
    All-zip [] d k = tt
    All-zip (q ∷ qs) d k = (λ e. ground (arith, k.0 e), All-zip qs d.1 k.1)

module _ (network : Text) (c : Content) where
  deleted : Content
  unfolding delete_rows
  deleted = (delete_rows network c).1

  stays_unshared :
      {A : Type 0} (id : ℕ) (children : List (Child A))
      → any (both network id) c.subnets ≡ false
      → keep (child_of id) (keep (stays network c) children) ≡ keep (child_of id) children
  unfolding stays
  stays_unshared id children h = keep-keep (child_of id) (stays network c) children λ ch e.
      let same : ch.subnet_id ≡ id = (==_iff ch.subnet_id id).0 e in
      let h' : any (both network ch.subnet_id) c.subnets ≡ false =
        subst (λ n. any (both network n) c.subnets ≡ false) (sym same) h in
      ground arith

  -- The rows that are left are read as before.
  read_left :
      (r : SubnetRow) → any (both network r.id) c.subnets ≡ false → loaded deleted r ≡ loaded c r
  unfolding deleted
  read_left r h =
      loaded-keep deleted c r (stays_unshared r.id c.ranges h)
        (λ t. stays_unshared r.id (c.values t) h)

  view-deleted : IsValid c → view deleted ≡ keep (λ s. not (named network s)) (view c)
  unfolding deleted loaded
  view-deleted v =
      map-eq (loaded deleted) (loaded c) (keep (λ r. not (has_network network r)) c.subnets) (
        All-keep_when
          (λ (r : SubnetRow).
            has_network network r ≡ false → any (both network r.id) c.subnets ≡ false)
          _ (λ r. not (has_network network r)) c.subnets
          (λ r (apart : has_network network r ≡ false → any (both network r.id) c.subnets ≡ false)
              (left : not (has_network network r) ≡ true).
            read_left r (apart (ground arith)))
          (unshared network c.subnets v.apart))
      ∙ sym (keep-map (λ s. not (named network s)) (loaded c) c.subnets)

  stays-both :
      {A : Type 0} (ch : Child A)
      → c.foreign_keys ≡ true
      → stays network c ch ≡ true
      → any (both network ch.subnet_id) c.subnets ≡ false
  unfolding stays
  stays-both ch on st = ground arith

  deleted-IsValid : IsValid c → IsValid deleted
  unfolding deleted
  deleted-IsValid v = record {
    enforced = v.enforced;
    apart = Apart-keep c.subnets v.apart;
    ids = All-keep (λ r. r.id < c.next_subnet) _ c.subnets v.ids;
    ranges_owned = left c.ranges v.ranges_owned;
    values_owned = λ t. left (c.values t) (v.values_owned t);
  }
    where
      Apart-keep :
          (rows : List SubnetRow)
          → Apart rows
          → Apart (keep (λ r. not (has_network network r)) rows)
      Apart-keep [] a = tt
      Apart-keep (r ∷ rows) a = elim (Bool-cases (has_network network r)) [
        | inl e ↦ rw e (Apart-keep rows a.1)
        | inr e ↦ rw e (All-keep (Differs r) _ rows a.0, Apart-keep rows a.1)
      ]

      any-left :
          (id : ℕ) (rows : List SubnetRow)
          → any (has_id id) rows ≡ true
          → any (both network id) rows ≡ false
          → any (has_id id) (keep (λ r. not (has_network network r)) rows) ≡ true
      any-left id [] h k = h
      any-left id (r ∷ rows) h k = ground (arith, any-left id rows)

      left :
          {A : Type 0} (children : List (Child A))
          → All (Owned c.subnets) children
          → All
              (Owned (keep (λ r. not (has_network network r)) c.subnets))
              (keep (stays network c) children)
      left children =
          All-keep_when (Owned c.subnets) _ (stays network c) children
            λ ch own st. any-left ch.subnet_id c.subnets own (stays-both ch v.enforced st)

  count-known :
      any (has_network network) c.subnets ≡ true
      → (length (keep (has_network network) c.subnets) == 0) ≡ false
  count-known = go c.subnets
    where
      go :
          (rows : List SubnetRow)
          → any (has_network network) rows ≡ true
          → (length (keep (has_network network) rows) == 0) ≡ false
      go [] h = cc
      go (r ∷ rows) h = elim (Bool-cases (has_network network r)) [
        | inl e ↦ rw e (ground arith)
        | inr e ↦ rw e (go rows (rw e at h))
      ]

  count-unknown :
      any (has_network network) c.subnets ≡ false
      → length (keep (has_network network) c.subnets) ≡ 0
  count-unknown h = ap length (keep-none (has_network network) c.subnets (any_none _ c.subnets h))

  -- Where no row has the network, nothing is deleted.
  view-unknown : IsValid c → any (has_network network) c.subnets ≡ false → view deleted ≡ view c
  view-unknown v h =
      view-deleted v
      ∙ keep-all (λ s. not (named network s)) (view c)
          (All-implies (λ s. named network s ≡ false) _ (view c)
            (λ s (e : named network s ≡ false). rw e)
            (any_none (named network) (view c) (any-view network c ∙ h)))

module _ (H : Type 0) (spec : Option (List SubnetConfig)) (c d : Content) (n : ℕ) (fs : List Bool)
    (healthy : H → fs ≡ []) (valid : IsValid d) where
  some_rows :
      (n == 0) ≡ false
      → spec ≡ some (view d)
      → Outcome H spec c (require_rows n (record { content = d; faults = fs }))
  unfolding require_rows
  some_rows e meant = rw e ((meant, healthy), valid)

  no_rows :
      n ≡ 0
      → spec ≡ none
      → view d ≡ view c
      → Outcome H spec c (require_rows n (record { content = d; faults = fs }))
  unfolding require_rows
  no_rows e meant same = rw e ((same, λ u. meant, healthy), valid)

pub delete_subnet-Outcome :
    (network : Text) (db : SqlDb)
    → IsValid db.content
    → Outcome
        (db.faults ≡ [])
        (apply (Change.delete network) (view db.content))
        db.content
        (delete_subnet network db)
unfolding delete_subnet
delete_subnet-Outcome network db v =
    statement-cases H (λ r. Outcome H meant c (and_then require_rows r)) (delete_rows network) db
      (λ h. h)
      (λ fs h.
        unfold delete_rows deleted in
        elim (Bool-cases (any (has_network network) c.subnets)) [
          | inl known ↦
              some_rows H meant c (deleted network c)
                (length (keep (has_network network) c.subnets)) fs h (deleted-IsValid network c v)
                (count-known network c known) (meant_some known)
          | inr unknown ↦
              no_rows H meant c (deleted network c) (length (keep (has_network network) c.subnets))
                fs h (deleted-IsValid network c v) (count-unknown network c unknown)
                (meant_none unknown) (view-unknown network c v unknown)
        ])
      (λ db' same no.
        ((ap view same, λ u. absurd (no u), λ u. absurd (no u)), subst IsValid (sym same) v))
  where
    H : Type 0
    H = db.faults ≡ []

    c : Content
    c = db.content

    meant : Option (List SubnetConfig)
    meant = apply (Change.delete network) (view c)

    meant_some :
        any (has_network network) c.subnets ≡ true → meant ≡ some (view (deleted network c))
    meant_some known =
        unfold apply in rw (any-view network c, known) (ap some (sym (view-deleted network c v)))

    meant_none : any (has_network network) c.subnets ≡ false → meant ≡ none
    meant_none unknown = unfold apply in rw (any-view network c, unknown)
