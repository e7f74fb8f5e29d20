-- ===== src/Store/Effects.antt =====
-- internal/sqlite3store/store.go: what an action on the database yields and leaves, whichever of its
-- statements fail.
use go_dhcpd.Base.{
  Bool, true, false, List, [], ◌∷◌, Error, storage, Exec, Result, ok, err, pure, and_then, subst,
  ◌>>=◌, ◌>>◌, ◌≡◌, refl, sym, ap, ◌∙◌,
}
use go_dhcpd.Store.Rows.{
  Content, SqlDb, Query, Faulty, with_faults, statement, attempt, settle, transaction, tx_control,
}

module _ {C : Type 0} where
  -- Where the action succeeds it yields `a` and leaves the tables `c`. Under `H` it succeeds, and no
  -- later statement fails.
  abbrev pub Yields : Type 0 → {A : Type 0} → A → C → Result A × Faulty C → Type 0
  Yields H a c (ok b, db) = (b ≡ a) × (db.content ≡ c) × (H → db.faults ≡ [])
  Yields H a c (err e, db) = H → ⊥

  pub pure-Yields :
      (H : Type 0) {A : Type 0} (a : A) (c : C) (db : Faulty C)
      → db.content ≡ c
      → (H → db.faults ≡ [])
      → Yields H a c (pure a db)
  pure-Yields H a c db e h = (refl, e, h)

  pub >>=-Yields :
      (H : Type 0) {A B : Type 0} (a : A) (b : B) (c d : C) (m : Exec (Faulty C) A)
      (k : A → Exec (Faulty C) B) (db : Faulty C)
      → Yields H a c (m db)
      → ((db' : Faulty C) → db'.content ≡ c → (H → db'.faults ≡ []) → Yields H b d (k a db'))
      → Yields H b d ((m >>= k) db)
  >>=-Yields H {A} {B} a b c d m k db y next = go (m db) y
    where
      go : (r : Result A × Faulty C) → Yields H a c r → Yields H b d (and_then k r)
      go (ok a', db') y = subst (λ x. Yields H b d (k x db')) (sym y.0) (next db' y.1 y.2)
      go (err e, db') y = y

  pub statement-Yields :
      (H : Type 0) {A : Type 0} (a : A) (c d : C) (q : C → Result A × C) (db : Faulty C)
      → db.content ≡ c
      → (H → db.faults ≡ [])
      → q c ≡ (ok a, d)
      → Yields H a d (statement q db)
  unfolding statement attempt
  statement-Yields H {A} a c d q db same healthy does = go db.faults healthy
    where
      runs : q db.content ≡ (ok a, d)
      runs = ap q same ∙ does

      go : (fs : List Bool) → (H → fs ≡ []) → Yields H a d (attempt fs q db)
      go [] h = rw runs (refl, refl, λ u. refl)
      go (true ∷ rest) h = λ u. cc (h u)
      go (false ∷ rest) h = rw runs (refl, refl, λ u. cc (h u))

  -- The action fails; under `H` none of its statements does.
  abbrev pub Fails : Type 0 → {A : Type 0} → Result A × Faulty C → Type 0
  Fails H (ok a, db) = ⊥
  Fails H (err e, db) = H → db.faults ≡ []

  pub >>=-Fails :
      (H : Type 0) {A B : Type 0} (m : Exec (Faulty C) A) (k : A → Exec (Faulty C) B)
      (db : Faulty C)
      → Fails H (m db)
      → Fails H ((m >>= k) db)
  >>=-Fails H {A} {B} m k db f = go (m db) f
    where
      go : (r : Result A × Faulty C) → Fails H r → Fails H (and_then k r)
      go (ok a, db') f = elim f [ ]
      go (err e, db') f = f

  pub >>=-Fails_later :
      (H : Type 0) {A B : Type 0} (a : A) (c : C) (m : Exec (Faulty C) A)
      (k : A → Exec (Faulty C) B) (db : Faulty C)
      → Yields H a c (m db)
      → ((db' : Faulty C) → db'.content ≡ c → (H → db'.faults ≡ []) → Fails H (k a db'))
      → Fails H ((m >>= k) db)
  >>=-Fails_later H {A} {B} a c m k db y next = go (m db) y
    where
      go : (r : Result A × Faulty C) → Yields H a c r → Fails H (and_then k r)
      go (ok a', db') y = subst (λ x. Fails H (k x db')) (sym y.0) (next db' y.1 y.2)
      go (err e, db') y = λ u. absurd (y u)

  pub statement-Fails :
      (H : Type 0) {A : Type 0} (e : Error) (c d : C) (q : C → Result A × C) (db : Faulty C)
      → db.content ≡ c
      → (H → db.faults ≡ [])
      → q c ≡ (err e, d)
      → Fails H (statement q db)
  unfolding statement attempt
  statement-Fails H {A} e c d q db same healthy does = go db.faults healthy
    where
      fails : q db.content ≡ (err e, d)
      fails = ap q same ∙ does

      go : (fs : List Bool) → (H → fs ≡ []) → Fails H (attempt fs q db)
      go [] h = rw fails λ u. refl
      go (true ∷ rest) h = λ u. cc (h u)
      go (false ∷ rest) h = rw fails λ u. cc (h u)

  -- Where no statement fails, it runs.
  pub statement_runs :
      {A : Type 0} (q : C → Result A × C) (db : Faulty C) (r : Result A) (c : C)
      → db.faults ≡ []
      → q db.content ≡ (r, c)
      → statement q db ≡ (r, record db { content = c })
  unfolding statement attempt
  statement_runs q db r c healthy does =
      ap (λ fs. attempt fs q db) healthy ∙ ap (with_faults []) does ∙ λ i.
      (r, record { content = c; faults = sym healthy i })

  -- One statement: it runs, or it does not and leaves the tables as they were.
  pub statement-cases :
      (H : Type 0) {A : Type 0} (P : Result A × Faulty C → Type 0) (q : C → Result A × C)
      (db : Faulty C)
      → (H → db.faults ≡ [])
      → ((fs : List Bool) → (H → fs ≡ []) → P (with_faults fs (q db.content)))
      → ((db' : Faulty C) → db'.content ≡ db.content → (H → ⊥) → P (err storage, db'))
      → P (statement q db)
  unfolding statement attempt
  statement-cases H P q db healthy runs fails = go db.faults healthy
    where
      go : (fs : List Bool) → (H → fs ≡ []) → P (attempt fs q db)
      go [] h = runs [] h
      go (true ∷ rest) h = fails (record db { faults = rest }) refl (λ u. cc (h u))
      go (false ∷ rest) h = runs rest (λ u. cc (h u))

-- A change of the tables from `c` to `d` that either happens, or fails and leaves them as they were.
-- Under `H` it happens.
abbrev pub Changes : Type 0 → Content → Content → Result (Unit {0}) × SqlDb → Type 0
Changes H c d (ok u, db) = (db.content ≡ d) × (H → db.faults ≡ [])
Changes H c d (err e, db) = (db.content ≡ c) × (H → ⊥)

settle-Changes :
    (H : Type 0) (c d : Content) (r : Result (Unit {0}) × SqlDb)
    → Yields H tt d r
    → Changes H c d (settle c r)
unfolding settle
settle-Changes H c d (ok u, db) y = (y.1, y.2)
settle-Changes H c d (err e, db) y = (refl, y)

pub transaction-Changes :
    (H : Type 0) (d : Content) (body : Query (Unit {0})) (db : SqlDb)
    → (H → db.faults ≡ [])
    → ((db' : SqlDb) → db'.content ≡ db.content → (H → db'.faults ≡ []) → Yields H tt d (body db'))
    → Changes H db.content d (transaction body db)
unfolding transaction tx_control
transaction-Changes H d body db healthy steps = settle-Changes H db.content d _ (
    >>=-Yields H tt tt d d (statement tx_control >> body) (λ _. statement tx_control) db
      (>>=-Yields H tt tt db.content d (statement tx_control) (λ _. body) db
        (statement-Yields H tt db.content db.content tx_control db refl healthy refl) steps)
      (λ db' e h. statement-Yields H tt d d tx_control db' e h refl))

-- A refusal: the tables are as they were.
abbrev pub Refused : Type 0 → Content → Result (Unit {0}) × SqlDb → Type 0
Refused H c (ok u, db) = ⊥
Refused H c (err e, db) = (db.content ≡ c) × (H → db.faults ≡ [])

settle-Refused :
    (H : Type 0) (c : Content) (r : Result (Unit {0}) × SqlDb)
    → Fails H r
    → Refused H c (settle c r)
unfolding settle
settle-Refused H c (ok u, db) f = elim f [ ]
settle-Refused H c (err e, db) f = (refl, f)

pub transaction-Refused :
    (H : Type 0) (body : Query (Unit {0})) (db : SqlDb)
    → (H → db.faults ≡ [])
    → ((db' : SqlDb) → db'.content ≡ db.content → (H → db'.faults ≡ []) → Fails H (body db'))
    → Refused H db.content (transaction body db)
unfolding transaction tx_control
transaction-Refused H body db healthy steps = settle-Refused H db.content _ (
    >>=-Fails H (statement tx_control >> body) (λ _. statement tx_control) db
      (>>=-Fails_later H tt db.content (statement tx_control) (λ _. body) db
        (statement-Yields H tt db.content db.content tx_control db refl healthy refl) steps))
