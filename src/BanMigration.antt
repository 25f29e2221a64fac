-- ===== src/BanMigration.antt =====
-- packages/core/src/handlers/ip-ban.ts: `canonicalizeIp`, and the migration of ban keys that were stored
-- under another spelling of their address. The address parser (ipaddr.js) and the raw client (ioredis)
-- are parameters.
pub mod Lifetime
pub mod Tests
use Prim.Native.Char.{code}
use Prim.Native.String
use mathlib.Core.Option
use guard_core_ts.Base.{
  ℕ, String, Bool, true, false, List, [], ◌∷◌, Option, none, some, ltb, ◌==◌, if◌then◌else◌, str_eq,
  ◌<>◌,
}

-- A parsed address: its IPv4 text, if it is an IPv4-mapped IPv6 address, and its own text.
pub record Parsed : Type 0 where
  pub mapped_ipv4 : Option String
  pub text : String

-- A text without the bracket at its end, if there is one.
unfoldable pub drop_bracket : String → Option String
drop_bracket String.[] = none
drop_bracket (String.◌∷◌ c String.[]) = if code c == b']' then some String.[] else none
drop_bracket (String.◌∷◌ c (String.◌∷◌ d s)) =
    Option.map (λ t. String.◌∷◌ c t) (drop_bracket (String.◌∷◌ d s))

unfoldable pub strip_brackets : String → String
strip_brackets String.[] = String.[]
strip_brackets (String.◌∷◌ c s) =
    if code c == b'[' then Option.get_or (drop_bracket s) (String.◌∷◌ c s) else String.◌∷◌ c s

unfoldable pub text_of : String → Option Parsed → String
text_of value none = value
text_of value (some p) = Option.get_or p.mapped_ipv4 p.text

-- `canonicalizeIp`
unfoldable pub canonicalize_ip : (String → Option Parsed) → String → String
canonicalize_ip parse value = text_of value (parse (strip_brackets value))

-- What `PTTL` answers: -2 without a key, -1 for a key that does not expire, or the time that is left.
pub data Ttl : Type 0 where
  gone persistent : Ttl
  left : ℕ → Ttl

-- The commands of the raw client over a server state; `none` is a throw.
pub record RawClient (S : Type 0) : Type 0 where
  pub get_value : String → S → Option (Option String × S)
  pub pttl : String → S → Option (Ttl × S)
  pub set_px : (key value : String) (ttl : ℕ) → S → Option S
  pub del : String → S → Option S

-- `oldPttl <= 0`, and `newPttl < oldPttl` for a positive old one.
unfoldable pub remaining : Ttl → ℕ
remaining gone = 0
remaining persistent = 0
remaining (left n) = n

module _ {S : Type 0} (client : RawClient S) where
  -- The canonical key gets the value if that lives longer; the legacy key goes.
  unfoldable pub move_key : String → String → Option String → ℕ → Ttl × S → Option S
  move_key key canonical value old (new, s) =
      if ltb (remaining new) old
      then Option.bind (client.set_px canonical (Option.get_or value "") old s) (client.del key)
      else client.del key s

  unfoldable pub on_ttl : String → String → Option String → Ttl × S → Option S
  on_ttl key canonical value (old, s) =
      if ltb 0 (remaining old)
      then Option.bind (client.pttl canonical s) (move_key key canonical value (remaining old))
      else client.del key s

  unfoldable pub on_value : String → String → Option String × S → Option S
  on_value key canonical (value, s) = Option.bind (client.pttl key s) (on_ttl key canonical value)

module _ {S : Type 0} (client : RawClient S) (parse : String → Option Parsed) where
  -- `migrateOneBanKey`, of the key of a prefix and an address.
  unfoldable pub migrate_one_ban_key : String → String → S → Option S
  migrate_one_ban_key prefix raw_ip s =
      if str_eq (canonicalize_ip parse raw_ip) raw_ip
      then some s
      else Option.bind (client.get_value (prefix <> raw_ip) s)
          (on_value client (prefix <> raw_ip) (prefix <> canonicalize_ip parse raw_ip))

  -- `migrateLegacyBanKeys`, on the addresses of the keys that the server lists: it ends at a throw.
  unfoldable pub migrate_legacy_ban_keys : String → List String → S → Option S
  migrate_legacy_ban_keys prefix [] s = some s
  migrate_legacy_ban_keys prefix (raw_ip ∷ keys) s =
      Option.bind (migrate_one_ban_key prefix raw_ip s) (migrate_legacy_ban_keys prefix keys)
