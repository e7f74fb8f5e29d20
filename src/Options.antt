-- ===== src/Options.antt =====
-- The options of a packet, `map[byte][]byte` of internal/dhcp/packet.go, and their wire format
-- (`parseOptions`, the option loop of `ToBytes`). The list is the order in which `range` visits the
-- map; statements that hold for every list hold for every order.
pub mod Laws
pub mod Wire
use go_dhcpd.Base.{
  ℕ, zero, suc, ◌+◌, ◌%◌, List, [], ◌∷◌, ◌++◌, Option, none, some, ltb, ◌==◌, if◌then◌else◌, length,
  take, drop, Bytes,
}

abbrev pub Options : Type 0
Options = List (ℕ × Bytes)

-- `p.Options[opt]`
unfoldable pub lookup : ℕ → Options → Option Bytes
lookup opt [] = none
lookup opt ((code, val) ∷ opts) = if code == opt then some val else lookup opt opts

-- `p.Options[opt] = val`
unfoldable pub insert : ℕ → Bytes → Options → Options
insert opt val [] = (opt, val) ∷ []
insert opt val ((code, old) ∷ opts) =
    if code == opt then (opt, val) ∷ opts else (code, old) ∷ insert opt val opts

abbrev pub option_end : ℕ
option_end = 255

-- What one turn of the loop of `parseOptions` does at an option code: leave the loop, or go on at
-- the rest of the data with an option read or none.
pub data Turn : Type 0 where
  leave : Turn
  continue : Bytes → Turn
  store : ℕ → Bytes → Bytes → Turn

turn_value : ℕ → Bytes → Turn
turn_value option [] = leave
turn_value option (n ∷ rest) =
    if ltb (length rest) n then leave else store option (take n rest) (drop n rest)

-- The argument is the part of the slice from index `i` on.
unfoldable pub turn : Bytes → Turn
unfolding turn_value
turn [] = leave
turn (option ∷ rest) =
    if option == option_end
    then leave
    else if option == 0
    then continue rest
    else turn_value option rest

-- The loop; `none` means that the fuel ran out.
unfoldable pub parse_loop : ℕ → Bytes → Options → Option Options
parse_loop zero bytes opts = none
parse_loop (suc fuel) bytes opts = elim (turn bytes) [
  | leave ↦ some opts
  | continue rest ↦ parse_loop fuel rest opts
  | store option v rest ↦ parse_loop fuel rest (insert option v opts)
]

abbrev pub read_map : Option Options → Options
read_map none = []
read_map (some opts) = opts

unfoldable pub parse_options : Bytes → Options
parse_options bytes = read_map (parse_loop (length bytes + 1) bytes [])

-- The loop of `ToBytes` over the map. `byte(len(val))` keeps the low eight bits.
unfoldable pub write_options : Options → Bytes
write_options [] = []
write_options ((opt, val) ∷ m) = opt ∷ (length val % 256) ∷ (val ++ write_options m)
