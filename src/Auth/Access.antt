-- ===== src/Auth/Access.antt =====
-- `Authorize` of internal/auth/auth.go and `authMiddleware` of internal/api/api.go: who is let in.
use go_dhcpd.Base.{
  ◌≡◌, refl, sym, ap, subst, ◌∙◌, ◌↔◌, ◌⊎◌, inl, inr, Bool, true, false, List, [], ◌∷◌, Option,
  none, some, if◌then◌else◌, Bool-cases, Text, text_eq, text_eq_iff, codes,
}
use go_dhcpd.Auth.{
  Verdict, passed, status, after_authorize, auth_middleware, Users, is_named, allowed_group,
  granted, any_group, by_groups, if_groups, authorize,
}

-- The list has the name.
abbrev pub Names : Text → List Text → Type 0
Names name [] = ⊥
Names name (n ∷ ns) = (name ≡ n) ⊎ Names name ns

is_named_iff : (names : List Text) (name : Text) → (is_named names name ≡ true) ↔ Names name names
is_named_iff [] name = (λ h. cc, λ h. elim h [ ])
is_named_iff (n ∷ ns) name = (
  λ h. elim (Bool-cases (text_eq name n)) [
    | inl same ↦ inl ((text_eq_iff name n).0 same)
    | inr other ↦ inr ((is_named_iff ns name).0 (rw other at h))
  ],
  λ h. elim h [
    | inl same ↦ rw ((text_eq_iff name n).1 same) refl
    | inr later ↦ elim (Bool-cases (text_eq name n)) [
      | inl same ↦ rw same refl
      | inr other ↦ rw other ((is_named_iff ns name).1 later)
    ]
  ],
)

-- Some group of the list has an allowed name.
abbrev pub AllowedIn : Users → List Text → List Text → Type 0
AllowedIn users allowed gids =
    (gid : Text) × (name : Text) × Names gid gids
    × (users.group_name gid ≡ some name)
    × Names name allowed

module _ (users : Users) (allowed : List Text) where
  any_group-AllowedIn :
      (gids : List Text) → any_group users allowed gids ≡ true → AllowedIn users allowed gids
  unfolding any_group
  any_group-AllowedIn [] h = absurd (cc)
  any_group-AllowedIn (gid ∷ gids) h = go (users.group_name gid) refl h (any_group-AllowedIn gids)
    where
      Found : List Text → Type 0
      Found gs = AllowedIn users allowed gs

      later : Found gids → Found (gid ∷ gids)
      later (g, name, m, e, n) = (g, name, inr m, e, n)

      go :
          (o : Option Text)
          → users.group_name gid ≡ o
          → (if allowed_group allowed o then true else any_group users allowed gids) ≡ true
          → (any_group users allowed gids ≡ true → Found gids)
          → Found (gid ∷ gids)
      go none e k ih = later (ih k)
      go (some name) e k ih = elim (Bool-cases (is_named allowed name)) [
        | inl yes_ ↦ (gid, name, inl refl, e, (is_named_iff allowed name).0 yes_)
        | inr no_ ↦ later (ih (rw no_ at k))
      ]

  AllowedIn-any_group :
      (gids : List Text) → AllowedIn users allowed gids → any_group users allowed gids ≡ true
  unfolding any_group
  AllowedIn-any_group [] (g, name, m, e, n) = elim m [ ]
  AllowedIn-any_group (gid ∷ gids) (g, name, inl here, e, n) =
      let f : users.group_name gid ≡ some name = ap users.group_name (sym here) ∙ e in
      rw (f, (is_named_iff allowed name).1 n) refl
  AllowedIn-any_group (gid ∷ gids) (g, name, inr there, e, n) =
      elim (Bool-cases (allowed_group allowed (users.group_name gid))) [
        | inl yes_ ↦ rw yes_ refl
        | inr no_ ↦ rw no_ (AllowedIn-any_group gids (g, name, there, e, n))
      ]

  -- The user is in an allowed group.
  abbrev pub InGroup : Text → Type 0
  InGroup username =
      (gids : List Text) × (users.group_ids username ≡ some gids) × AllowedIn users allowed gids

  by_groups_iff :
      (username : Text)
      → (by_groups users allowed (users.group_ids username) ≡ true) ↔ InGroup username
  by_groups_iff username =
      (λ h. go (users.group_ids username) refl h, λ (gids, e, a). rw e (AllowedIn-any_group gids a))
    where
      go :
          (o : Option (List Text))
          → users.group_ids username ≡ o
          → by_groups users allowed o ≡ true
          → InGroup username
      go none e h = absurd (cc)
      go (some gids) e h = (gids, e, any_group-AllowedIn gids h)

no_names : (gids : List Text) (users : Users) → AllowedIn users [] gids → ⊥
no_names gids users (g, name, m, e, n) = n

if_groups_iff :
    (users : Users) (allowed : List Text) (username : Text)
    → (if_groups users username allowed ≡ true) ↔ InGroup users allowed username
if_groups_iff users [] username =
    (λ h. absurd (cc), λ (gids, e, a). elim (no_names gids users a) [ ])
if_groups_iff users (g ∷ gs) username = by_groups_iff users (g ∷ gs) username

-- A user who may use the interface.
abbrev pub Allowed : Users → List Text → List Text → Text → Type 0
Allowed users allowed_users allowed_groups username =
    (username ≡ codes "root")
    ⊎ (Names username allowed_users ⊎ InGroup users allowed_groups username)

either_iff :
    (a b c : Bool)
    → ((if a then true else if b then true else c) ≡ true)
      ↔ ((a ≡ true) ⊎ ((b ≡ true) ⊎ (c ≡ true)))
either_iff true b c = (λ h. inl refl, λ h. refl)
either_iff false true c = (λ h. inr (inl refl), λ h. refl)
either_iff false false c = (
  λ h. inr (inr h),
  λ h. elim h [ inl e ↦ absurd (cc) | inr k ↦ elim k [ inl e ↦ absurd (cc) | inr e ↦ e ] ],
)

authorize_test : Users → List Text → List Text → Text → Bool
authorize_test users allowed_users allowed_groups username =
    if text_eq username (codes "root")
    then true
    else if is_named allowed_users username
    then true
    else if_groups users username allowed_groups

authorize_test_iff :
    (users : Users) (allowed_users allowed_groups : List Text) (username : Text)
    → (authorize_test users allowed_users allowed_groups username ≡ true)
      ↔ Allowed users allowed_users allowed_groups username
unfolding authorize_test
authorize_test_iff users au ag username =
    let e =
      either_iff (text_eq username (codes "root")) (is_named au username)
        (if_groups users username ag) in
    (
      λ h. elim (e.0 h) [
        | inl root ↦ inl ((text_eq_iff username (codes "root")).0 root)
        | inr k ↦ elim k [
          | inl user ↦ inr (inl ((is_named_iff au username).0 user))
          | inr group ↦ inr (inr ((if_groups_iff users ag username).0 group))
        ]
      ],
      λ h. e.1 (elim h [
        | inl root ↦ inl ((text_eq_iff username (codes "root")).1 root)
        | inr k ↦ elim k [
          | inl user ↦ inr (inl ((is_named_iff au username).1 user))
          | inr group ↦ inr (inr ((if_groups_iff users ag username).1 group))
        ]
      ]),
    )

verdict : Bool → Bool → Text → Verdict
verdict authentic allowed username =
    if authentic then after_authorize username (granted allowed) else status 401

verdict_iff :
    (authentic allowed : Bool) (u username : Text)
    → (verdict authentic allowed u ≡ passed username)
      ↔ ((u ≡ username) × (authentic ≡ true) × (allowed ≡ true))
unfolding verdict
verdict_iff true true u username = (λ h. (cc, refl, refl), λ (e, a, b). ap passed e)
verdict_iff true false u username = (λ h. cc, λ (e, a, b). cc)
verdict_iff false b u username = (λ h. cc, λ (e, a, k). cc)

-- A request passes the middleware, as a user, exactly if it has credentials that PAM accepts for
-- that user, and the user is root, or named in the list of users, or a member of a group that the
-- system can name and whose name is in the list of groups.
pub auth_middleware-passed_iff :
    (users : Users) (authenticate : Text → Text → Bool) (allowed_users allowed_groups : List Text)
    (credentials : Option (Text × Text)) (username : Text)
    → (auth_middleware users authenticate allowed_users allowed_groups credentials
        ≡ passed username)
      ↔ ((password : Text) × (credentials ≡ some (username, password))
          × (authenticate username password ≡ true)
          × Allowed users allowed_users allowed_groups username)
unfolding auth_middleware authorize authorize_test verdict
auth_middleware-passed_iff users authenticate au ag none username = (λ h. cc, λ (pw, e, a, k). cc)
auth_middleware-passed_iff users authenticate au ag (some (u, password)) username =
    let v = verdict_iff (authenticate u password) (authorize_test users au ag u) u username in
    (
      λ h.
          let (e, a, k) = v.0 h in
          (
            password,
            ap (λ n. some (n, password)) e,
            subst (λ n. authenticate n password ≡ true) e a,
            subst (Allowed users au ag) e ((authorize_test_iff users au ag u).0 k),
          ),
      λ (pw, e, a, k).
          let same : u ≡ username = cc (e) in
          let word : password ≡ pw = cc (e) in
          v.1 (
            same,
            ap (λ n. authenticate n password) same ∙ ap (authenticate username) word ∙ a,
            ap (authorize_test users au ag) same ∙ (authorize_test_iff users au ag username).1 k,
          ),
    )
