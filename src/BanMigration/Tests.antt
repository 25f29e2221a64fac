-- ===== src/BanMigration/Tests.antt =====
-- Runs of the migration of ban keys (handlers/ip-ban.ts), and the theorem about it at a concrete server.
use guard_core_ts.Base.{◌≡◌, refl, String, Option, none, some, if◌then◌else◌, str_eq}
use guard_core_ts.BanMigration.{
  Parsed, drop_bracket, strip_brackets, text_of, canonicalize_ip, Ttl, gone, left, RawClient,
  migrate_one_ban_key,
}
use guard_core_ts.BanMigration.Lifetime.{IsServer, Moved, migrate-Moved}

-- A server that only knows how long its keys live.
abbrev server : RawClient (String → Ttl)
server = record {
  get_value = λ key s. some (none, s);
  pttl = λ key s. some (s key, s);
  set_px = λ key value ttl s. some (λ k. if str_eq key k then left ttl else s k);
  del = λ key s. some (λ k. if str_eq key k then gone else s k);
}

abbrev ttl_of : (String → Ttl) → String → Ttl
ttl_of s key = s key

follows : IsServer server ttl_of
follows = record {
  gets = λ key s. (none, refl);
  lives = λ key s. refl;
  sets = λ key value ttl s h. ((λ k. if str_eq key k then left ttl else s k), refl, λ k. refl);
  deletes = λ key s. ((λ k. if str_eq key k then gone else s k), refl, λ k. refl);
}

-- A parser that knows two addresses.
abbrev parse : String → Option Parsed
parse s =
    if str_eq s "0:0::1"
    then some (record { mapped_ipv4 = none; text = "::1" })
    else if str_eq s "::ffff:1.2.3.4"
    then some (record { mapped_ipv4 = some "1.2.3.4"; text = "::ffff:102:304" })
    else none

bracketed : canonicalize_ip parse "[0:0::1]" ≡ "::1"
unfolding canonicalize_ip strip_brackets drop_bracket text_of
bracketed = refl

mapped : canonicalize_ip parse "::ffff:1.2.3.4" ≡ "1.2.3.4"
unfolding canonicalize_ip strip_brackets drop_bracket text_of
mapped = refl

unparseable : canonicalize_ip parse "[x" ≡ "[x"
unfolding canonicalize_ip strip_brackets drop_bracket text_of
unparseable = refl

abbrev bans : String → Ttl
bans key =
    if str_eq key "banned_ips:[0:0::1]"
    then left 90
    else if str_eq key "banned_ips:::1"
    then left 30
    else gone

migrate-Moved_example :
    (t : String → Ttl) × (migrate_one_ban_key server parse "banned_ips:" "[0:0::1]" bans ≡ some t)
    × Moved ttl_of "banned_ips:[0:0::1]" "banned_ips:::1" bans t
unfolding canonicalize_ip strip_brackets drop_bracket text_of
migrate-Moved_example = migrate-Moved server ttl_of follows parse "banned_ips:" "[0:0::1]" bans refl
