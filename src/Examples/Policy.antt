-- ===== src/Examples/Policy.antt =====
-- Examples of who is let in, and of a subnet that is let pass.
use go_dhcpd.Base.{
  ◌≡◌, ◌↔◌, Bool, true, [], ◌∷◌, Option, some, none, if◌then◌else◌, Text, text_eq, codes,
}
use go_dhcpd.Auth.{Users, passed, auth_middleware}
use go_dhcpd.Auth.Access.{Allowed, auth_middleware-passed_iff}

abbrev staff : Users
staff = record {
  group_ids = λ name. if text_eq name (codes "amy") then some (codes "27" ∷ []) else none;
  group_name = λ gid. if text_eq gid (codes "27") then some (codes "sudo") else none;
}

abbrev password_ok : Text → Text → Bool
password_ok name password = text_eq password (codes "secret")

abbrev login : Option (Text × Text)
login = some (codes "amy", codes "secret")

auth_middleware-passed_iff_example :
    (auth_middleware staff password_ok [] (codes "sudo" ∷ []) login ≡ passed (codes "amy")) ↔ (
      (password : Text) × (login ≡ some (codes "amy", password))
      × (password_ok (codes "amy") password ≡ true)
      × Allowed staff [] (codes "sudo" ∷ []) (codes "amy"))
auth_middleware-passed_iff_example =
    auth_middleware-passed_iff staff password_ok [] (codes "sudo" ∷ []) login (codes "amy")
